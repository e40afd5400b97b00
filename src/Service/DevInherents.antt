-- ===== src/Service/DevInherents.antt =====
-- node/src/service.rs: `create_dev_inherent_data_providers`, what a block of the development
-- parachain is told about its parent, its relay chain and its time.
pub mod Slots
pub mod Accepted
use ink_node.Base.{
  ℕ, ◌+◌, ◌-◌, ◌*◌, ◌%◌, ◌^◌, ◌<◌, ◌≤◌, Bool, true, false, Option, none, some, is_some, List,
  Fallible, good, bad, leb, if◌then◌else◌, then_some,
}
use ink_node.Sdk.{Client, Hash, ParaId, Header}
use ink_node.Sdk
use ink_node.Prog.{Prog, ret, ask, abort, expect, ◌>>=◌}
use ink_node.Service.Errors.{ServiceError}

pub data UpgradeGoAhead : Type 0 where
  go_ahead : UpgradeGoAhead

-- The fields of `MockValidationDataInherentDataProvider` that the source sets.
pub record MockValidationData : Type 0 where
  pub current_para_block : ℕ
  pub para_id : ParaId
  pub current_para_block_head : Option (List ℕ)
  pub relay_blocks_per_para_block : ℕ
  pub para_blocks_per_relay_epoch : ℕ
  pub upgrade_go_ahead : Option UpgradeGoAhead

-- The two inherents of a block.
pub record DevInherents : Type 0 where
  pub timestamp : ℕ
  pub validation : MockValidationData

-- `UniqueSaturatedInto::<u32>`, on a block number that is a `u32` already.
abbrev pub saturate_u32 : ℕ → ℕ
saturate_u32 n = if leb n (2 ^ 32 - 1) then n else 2 ^ 32 - 1

-- `u32` and `u64` arithmetic of a build without overflow checks.
abbrev pub current_block_number : Header → ℕ
current_block_number header = (saturate_u32 header.number + 1) % 2 ^ 32

abbrev pub aligned_timestamp : ℕ → ℕ → ℕ
aligned_timestamp slot_duration number = (slot_duration * number) % 2 ^ 64

-- `.map(|info| info.new_validation_code.is_some()).unwrap_or_default()`.
should_send_go_ahead : Fallible (Option ℕ) → Bool
should_send_go_ahead (good code) = is_some code
should_send_go_ahead (bad e) = false

-- `.header(parent_hash).expect(…)`.
looked_up : Fallible (Option Header) → Prog ServiceError (Option Header)
looked_up (good h) = ret h
looked_up (bad e) = abort "Header lookup should succeed"

unfoldable pub create_dev_inherents : Client → ParaId → ℕ → Hash → Prog ServiceError DevInherents
unfolding should_send_go_ahead looked_up
create_dev_inherents client para_id slot_duration parent_hash = do
  found ← ask (Sdk.header client parent_hash) >>= looked_up
  head ← expect "Header passed in as parent should be present in backend." found
  info ← ask (Sdk.collect_collation_info client parent_hash head)
  ret (record {
    timestamp = aligned_timestamp slot_duration (current_block_number head);
    validation = record {
      current_para_block = current_block_number head;
      para_id = para_id;
      current_para_block_head = some head.encoded;
      relay_blocks_per_para_block = 1;
      para_blocks_per_relay_epoch = 10;
      upgrade_go_ahead = then_some (should_send_go_ahead info) go_ahead;
    };
  })
