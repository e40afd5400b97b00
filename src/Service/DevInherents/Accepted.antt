-- ===== src/Service/DevInherents/Accepted.antt =====
-- node/src/service.rs and parachain-runtime/src/lib.rs: the inherents of sealed blocks before the
-- pallets of the runtime that they are made for.
use ink_node.Base.{ℕ, ◌+◌, ◌-◌, ◌*◌, ◌/◌, ◌%◌, ◌^◌, ◌<◌, ◌≤◌, ◌≡◌, good, some, arith}
use ink_node.Sdk.{Client, Hash, ParaId, Header}
use ink_node.Sdk
use ink_node.Prog.{Env, History, run, ok}
use ink_node.Service.DevInherents.{DevInherents, create_dev_inherents}
use ink_node.Service.DevInherents.Slots.{create_dev_inherents-slot}
use ink_node.Runtime.Schedules.{minimum_period, aura_slot}
use ink_node.Runtime.Apis.Para.{ParaFrame, aura_slot_duration}

successive :
    (n n' t t' q : ℕ)
    → n' ≡ n + 1
    → q ≡ 6000
    → (t % 6000 ≡ 0) × (t / 6000 ≡ n + 1)
    → (t' % 6000 ≡ 0) × (t' / 6000 ≡ n' + 1)
    → (t + 3000 ≤ t') × (t' / q ≡ t / q + 1)
successive n n' t t' q follows e first second = rw e (omega arith, omega arith)

module _ (f : ParaFrame) (s : f.frame.State) (times_two : ℕ → ℕ) where
  -- If two blocks are sealed, with the slot duration that the parachain's runtime answers, on
  -- parents of which the second's number follows the first's and lies below the largest `u32`, and
  -- the Aura pallet takes twice the minimum period for its slots, both inherents are made, the
  -- second's time keeps the minimum period of the timestamp pallet, and the two times lie in
  -- successive slots of the Aura pallet, so no slot has two blocks.
  pub create_dev_inherents-accepted :
      (env : Env) (h g : History) (client : Client) (para_id : ParaId) (parent next : Hash)
      (head head' : Header)
      → times_two minimum_period ≡ minimum_period * 2
      → env h (Sdk.header client parent) ≡ good (some head)
      → env g (Sdk.header client next) ≡ good (some head')
      → head'.number ≡ head.number + 1
      → head'.number < 2 ^ 32 - 1
      → let d = (aura_slot_duration f s).0 in
        (r r' : DevInherents) × ((run env h (create_dev_inherents client para_id d parent)).1
          ≡ ok r)
        × ((run env g (create_dev_inherents client para_id d next)).1 ≡ ok r')
        × (r.timestamp + minimum_period ≤ r'.timestamp)
        × (r'.timestamp / aura_slot times_two ≡ r.timestamp / aura_slot times_two + 1)
  unfolding aura_slot_duration minimum_period
  create_dev_inherents-accepted env h g client para_id parent next head head' twice found found'
        follows below =
      let first =
        create_dev_inherents-slot env h client para_id 6000 parent head found (omega arith)
          (omega arith) (omega arith) in
      let second =
        create_dev_inherents-slot env g client para_id 6000 next head' found' (omega arith)
          (omega arith) below in
      let fit =
        successive head.number head'.number first.0.timestamp second.0.timestamp (times_two 3000)
          follows twice (first.2, first.3) (second.2, second.3) in
      (first.0, second.0, first.1, second.1, fit.0, fit.1)
