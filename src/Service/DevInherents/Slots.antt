-- ===== src/Service/DevInherents/Slots.antt =====
-- The inherents of the development parachain's blocks and the slots of Aura.
use ink_node.Base.{
  ℕ, ◌+◌, ◌-◌, ◌*◌, ◌/◌, ◌%◌, ◌^◌, ◌<◌, ◌≤◌, ◌≡◌, refl, ◌↔◌, Option, none, some, Fallible, good,
  bad, arith, ◌∷◌, then_some,
}
use native.Mathlib.Nat.{mod-eq_of_lt, div-eq_of_eq-mul_right, mul-mod_right, mul-le-mul}
use ink_node.Sdk.{Call, Client, Hash, ParaId, Header}
use ink_node.Sdk
use ink_node.Prog.{Env, History, run, ok}
use ink_node.Service.DevInherents.{
  create_dev_inherents, current_block_number, aligned_timestamp, DevInherents, go_ahead,
  should_send_go_ahead,
}

current_block_number_lem :
    (head : Header) → head.number < 2 ^ 32 - 1 → current_block_number head ≡ head.number + 1
current_block_number_lem head h = ground arith

aligned_timestamp_lem : (d n : ℕ) → d ≤ 2 ^ 32 → n < 2 ^ 32 → aligned_timestamp d n ≡ d * n
aligned_timestamp_lem d n hd hn =
    let h : n ≤ 2 ^ 32 - 1 = omega arith in mod-eq_of_lt (omega (arith, mul-le-mul hd h))

go_ahead_iff :
    (r : Fallible (Option ℕ))
    → (then_some (should_send_go_ahead r) go_ahead ≡ some go_ahead)
      ↔ ((code : ℕ) × (r ≡ good (some code)))
unfolding should_send_go_ahead
go_ahead_iff (good none) = (λ e. cc, λ x. cc (x.1))
go_ahead_iff (good (some code)) = (λ e. (code, refl), λ x. refl)
go_ahead_iff (bad e) = (λ e. cc, λ x. cc (x.1))

-- The parts of the inherents that the theorem is about, where the block's number does not overflow.
in_slot :
    (d : ℕ) (head : Header)
    → 0 < d
    → d ≤ 2 ^ 32
    → head.number < 2 ^ 32 - 1
    → (aligned_timestamp d (current_block_number head) % d ≡ 0)
      × (aligned_timestamp d (current_block_number head) / d ≡ head.number + 1)
in_slot d head pos small below = rw (current_block_number_lem head below) (
    rw (aligned_timestamp_lem d (head.number + 1) small (omega arith))
      (mul-mod_right d (head.number + 1), div-eq_of_eq-mul_right pos refl))

one_slot :
    (d : ℕ) (head head' : Header)
    → head'.number ≡ head.number + 1
    → d ≤ 2 ^ 32
    → head'.number < 2 ^ 32 - 1
    → aligned_timestamp d (current_block_number head')
      ≡ aligned_timestamp d (current_block_number head) + d
one_slot d head head' follows small below =
    rw (current_block_number_lem head (omega arith), current_block_number_lem head' below)
      (rw
        (
          aligned_timestamp_lem d (head.number + 1) small (omega arith),
          aligned_timestamp_lem d (head'.number + 1) small (omega arith),
          follows,
        )
        (omega arith))

-- The inherents for a header that is found, and what the runtime answers about its code.
inherents : ParaId → ℕ → Header → Fallible (Option ℕ) → DevInherents
inherents para_id d head info = record {
  timestamp = aligned_timestamp d (current_block_number head);
  validation = record {
    current_para_block = current_block_number head;
    para_id = para_id;
    current_para_block_head = some head.encoded;
    relay_blocks_per_para_block = 1;
    para_blocks_per_relay_epoch = 10;
    upgrade_go_ahead = then_some (should_send_go_ahead info) go_ahead;
  };
}

create_dev_inherents_lem :
    (env : Env) (h : History) (client : Client) (para_id : ParaId) (d : ℕ) (parent : Hash)
    (head : Header)
    → env h (Sdk.header client parent) ≡ good (some head)
    → (run env h (create_dev_inherents client para_id d parent)).1
      ≡ ok (
          inherents para_id d head
            (env (Sdk.header client parent ∷ h) (Sdk.collect_collation_info client parent head)))
unfolding create_dev_inherents inherents
create_dev_inherents_lem env h client para_id d parent head found = rw (found, run) refl

module _ (env : Env) (h : History) (client : Client) (para_id : ParaId) (d : ℕ)
    (parent : Hash) where
  -- If the parent's header is found, with a number below the largest `u32`, and the slot duration is
  -- positive and at most 2^32 milliseconds, the inherents are made. Their time is the start of the
  -- slot that is numbered like the new block, which follows its parent's number, and they signal an
  -- upgrade exactly if the runtime answers that new validation code is pending.
  pub create_dev_inherents-slot :
      (head : Header)
      → env h (Sdk.header client parent) ≡ good (some head)
      → 0 < d
      → d ≤ 2 ^ 32
      → head.number < 2 ^ 32 - 1
      → let asked = Sdk.header client parent ∷ h in
        (r : DevInherents) × ((run env h (create_dev_inherents client para_id d parent)).1 ≡ ok r)
        × (r.timestamp % d ≡ 0)
        × (r.timestamp / d ≡ head.number + 1)
        × (r.validation.current_para_block ≡ head.number + 1)
        × ((r.validation.upgrade_go_ahead ≡ some go_ahead) ↔ (
            (code : ℕ) × (env asked (Sdk.collect_collation_info client parent head)
              ≡ good (some code))))
  unfolding inherents
  create_dev_inherents-slot head found pos small below =
      let info =
        env (Sdk.header client parent ∷ h) (Sdk.collect_collation_info client parent head) in
      (
        inherents para_id d head info,
        create_dev_inherents_lem env h client para_id d parent head found,
        (in_slot d head pos small below).0,
        (in_slot d head pos small below).1,
        current_block_number_lem head below,
        go_ahead_iff info,
      )

  -- If two blocks are sealed, at any two moments, on parents of which the second's number follows the
  -- first's and lies below the largest `u32`, and the slot duration is at most 2^32 milliseconds,
  -- both inherents are made and the second's time lies one slot after the first's.
  create_dev_inherents-next :
      (g : History) (next : Hash) (head head' : Header)
      → env h (Sdk.header client parent) ≡ good (some head)
      → env g (Sdk.header client next) ≡ good (some head')
      → head'.number ≡ head.number + 1
      → d ≤ 2 ^ 32
      → head'.number < 2 ^ 32 - 1
      → (r r' : DevInherents) × ((run env h (create_dev_inherents client para_id d parent)).1
          ≡ ok r)
        × ((run env g (create_dev_inherents client para_id d next)).1 ≡ ok r')
        × (r'.timestamp ≡ r.timestamp + d)
  unfolding inherents
  create_dev_inherents-next g next head head' found found' follows small below = (
    inherents para_id d head _,
    inherents para_id d head' _,
    create_dev_inherents_lem env h client para_id d parent head found,
    create_dev_inherents_lem env g client para_id d next head' found',
    one_slot d head head' follows small below,
  )
