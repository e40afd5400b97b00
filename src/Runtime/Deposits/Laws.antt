-- ===== src/Runtime/Deposits/Laws.antt =====
-- The deposits of assets_config.rs and revive_config.rs as functions of the items and the bytes.
use ink_node.Base.{ℕ, ◌+◌, ◌*◌, ◌^◌, ◌<◌, ◌≡◌, arith}
use ink_node.Runtime.Deposits.{
  system_para_deposit, metadata_deposit_per_byte, deposit, deposit_per_item, deposit_per_byte,
}

-- For any `u32` counts `deposit` is `items` times the deposit of an item plus `bytes` times that of
-- a byte, and `system_para_deposit` is linear in the same way: nothing overflows and nothing is lost
-- in the divisions.
pub deposits_linear :
    (items bytes : ℕ)
    → items < 2 ^ 32
    → bytes < 2 ^ 32
    → (deposit items bytes ≡ items * deposit_per_item + bytes * deposit_per_byte)
      × (system_para_deposit items bytes
          ≡ items * system_para_deposit 1 0 + bytes * metadata_deposit_per_byte)
unfolding deposit deposit_per_item deposit_per_byte system_para_deposit metadata_deposit_per_byte
deposits_linear items bytes hi hb = (omega arith, omega arith)
