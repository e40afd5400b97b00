-- ===== src/Runtime/Deposits.antt =====
-- The storage deposits: `system_para_deposit` of assets_config.rs and `deposit` of
-- revive_config.rs, which the two runtimes write alike, and the parameters made from them.
pub mod Laws
use ink_node.Base.{ℕ, ◌*◌, ◌/◌}
use ink_node.Runtime.Words.{add_balance, mul_balance}
use ink_node.Runtime.Units.{existential_deposit}

-- The three constants that assets_config.rs has for itself.
abbrev pub asset_units : ℕ
asset_units = 10_000_000_000

abbrev pub asset_dollars : ℕ
asset_dollars = asset_units

abbrev pub asset_millicents : ℕ
asset_millicents = asset_dollars / 100_000

-- `((items as Balance) * 20 * DOLLARS + (bytes as Balance) * 100 * MILLICENTS) / 100`.
unfoldable pub system_para_deposit : ℕ → ℕ → ℕ
system_para_deposit items bytes =
    add_balance (mul_balance (mul_balance items 20) asset_dollars)
      (mul_balance (mul_balance bytes 100) asset_millicents)
    / 100

unfoldable pub asset_deposit : ℕ
unfolding system_para_deposit
asset_deposit = system_para_deposit 1 190

unfoldable pub asset_account_deposit : ℕ
unfolding system_para_deposit
asset_account_deposit = system_para_deposit 1 16

abbrev pub approval_deposit : ℕ
approval_deposit = existential_deposit

abbrev pub string_limit : ℕ
string_limit = 50

unfoldable pub metadata_deposit_base : ℕ
unfolding system_para_deposit
metadata_deposit_base = system_para_deposit 1 68

unfoldable pub metadata_deposit_per_byte : ℕ
unfolding system_para_deposit
metadata_deposit_per_byte = system_para_deposit 0 1

-- The two constants that revive_config.rs has for itself.
abbrev pub unit : ℕ
unit = 1_000_000_000_000

abbrev pub milliunit : ℕ
milliunit = 1_000_000_000

-- `(items as Balance * UNIT + (bytes as Balance) * (5 * MILLIUNIT / 100)) / 10`.
unfoldable pub deposit : ℕ → ℕ → ℕ
deposit items bytes =
    add_balance (mul_balance items unit) (mul_balance bytes (5 * milliunit / 100)) / 10

unfoldable pub deposit_per_item : ℕ
unfolding deposit
deposit_per_item = deposit 1 0

unfoldable pub deposit_per_child_trie_item : ℕ
unfolding deposit
deposit_per_child_trie_item = deposit 1 0 / 100

unfoldable pub deposit_per_byte : ℕ
unfolding deposit
deposit_per_byte = deposit 0 1

unfoldable pub default_deposit_limit : ℕ
unfolding deposit
default_deposit_limit = deposit 1024 (1024 * 1024)
