-- ===== src/Runtime/Configs.antt =====
-- The configurations of the pallets that runtime/src/lib.rs and parachain-runtime/src/lib.rs both
-- have, and of assets_config.rs: what each pallet is told, by its numbers, by the pallets that it
-- works with, and by the functions of the SDK that it is given. A pallet `P` is a name; `()` is no
-- pallet.
pub mod Consensus
use ink_node.Base.{ℕ, ◌*◌, ◌/◌, Option, none, some, List, [], ◌∷◌}
use ink_node.Runtime.Units.{millicents, existential_deposit}
use ink_node.Runtime.Weights.{
  RefTime, Weight, RuntimeDbWeight, WeightsBuilder, rocks_db_weight, normal_dispatch_ratio,
  runtime_block_weights, solo_block_constants, para_block_constants,
}
use ink_node.Runtime.Apis.{Opaque, RuntimeVersion}
use ink_node.Runtime.Apis.Solo.{solo_version}
use ink_node.Runtime.Apis.Para.{para_version}
use ink_node.Runtime.Schedules.{minimum_period}
use ink_node.Runtime.Deposits.{
  asset_deposit, asset_account_deposit, approval_deposit, string_limit, metadata_deposit_base,
  metadata_deposit_per_byte,
}
use ink_node.Runtime.Pallets.{SoloPallet, ParaPallet}

-- `()`, a pallet's `SubstrateWeight<Runtime>` and pallet_xcm's `TestWeightInfo`.
pub data WeightInfo : Type 0 where
  unit_weights substrate_weight test_weight_info : WeightInfo

pub data OnSetCode : Type 0 where
  default_set_code parachain_set_code : OnSetCode

-- `block_weights` is what the SDK's builder made of the runtime's limits;
-- `block_length` is the greatest length of a block in bytes and the percentage that is left to
-- normal extrinsics.
pub record SystemConfig (B : Type 0) : Type 0 where
  pub block_weights : B
  pub block_hash_count : ℕ
  pub db_weight : RuntimeDbWeight
  pub version : RuntimeVersion
  pub block_length : ℕ × ℕ
  pub ss58_prefix : ℕ
  pub on_set_code : OnSetCode
  pub max_consumers : ℕ

-- For the SDK's builder, units of time, base weights and database weights, and the versions of the
-- runtime's APIs.
unfoldable solo_system :
    (w : WeightsBuilder)
    → RefTime
    → Weight
    → Weight
    → RuntimeDbWeight
    → Opaque
    → SystemConfig w.Builder
solo_system w t block_execution extrinsic_base rocks_db apis = record {
  block_weights = runtime_block_weights w (solo_block_constants t block_execution extrinsic_base);
  block_hash_count = 2400;
  db_weight = rocks_db;
  version = solo_version apis;
  block_length = (5 * 1024 * 1024, normal_dispatch_ratio);
  ss58_prefix = 42;
  on_set_code = default_set_code;
  max_consumers = 16;
}

-- For the relay chain's `BlockHashCount` and `MAX_POV_SIZE`.
unfoldable para_system : (w : WeightsBuilder) → RefTime → ℕ → ℕ → Opaque → SystemConfig w.Builder
para_system w t max_pov_size block_hash_count apis = record {
  block_weights = runtime_block_weights w (para_block_constants t max_pov_size);
  block_hash_count = block_hash_count;
  db_weight = rocks_db_weight t;
  version = para_version apis;
  block_length = (5 * 1024 * 1024, normal_dispatch_ratio);
  ss58_prefix = 42;
  on_set_code = parachain_set_code;
  max_consumers = 16;
}

pub record TimestampConfig (P : Type 0) : Type 0 where
  pub on_timestamp_set : Option P
  pub minimum_period : ℕ
  pub weight_info : WeightInfo

unfoldable pub solo_timestamp : TimestampConfig SoloPallet
solo_timestamp = record { on_timestamp_set = none; minimum_period = 0; weight_info = unit_weights }

unfoldable pub para_timestamp : TimestampConfig ParaPallet
para_timestamp = record {
  on_timestamp_set = some ParaPallet.aura;
  minimum_period = minimum_period;
  weight_info = unit_weights;
}

-- The author is found by an index that one pallet gives into the accounts of another.
pub record AuthorshipConfig (P : Type 0) : Type 0 where
  pub find_author : Option (P × P)
  pub event_handler : List P

unfoldable pub solo_authorship : AuthorshipConfig SoloPallet
solo_authorship = record { find_author = none; event_handler = [] }

unfoldable pub para_authorship : AuthorshipConfig ParaPallet
para_authorship = record {
  find_author = some (ParaPallet.session, ParaPallet.aura);
  event_handler = ParaPallet.collator_selection ∷ [];
}

-- `MaxFreezes = ()` is no freeze; `reserve_identifier` is its length in bytes.
pub record BalancesConfig (P : Type 0) : Type 0 where
  pub max_locks : ℕ
  pub max_reserves : ℕ
  pub reserve_identifier : ℕ
  pub dust_removal : Option P
  pub existential_deposit : ℕ
  pub account_store : P
  pub weight_info : WeightInfo
  pub max_freezes : ℕ
  pub done_slash_handler : Option P

unfoldable solo_balances : BalancesConfig SoloPallet
solo_balances = record {
  max_locks = 50;
  max_reserves = 50;
  reserve_identifier = 8;
  dust_removal = none;
  existential_deposit = existential_deposit;
  account_store = SoloPallet.system;
  weight_info = substrate_weight;
  max_freezes = 0;
  done_slash_handler = none;
}

unfoldable para_balances : BalancesConfig ParaPallet
para_balances = record {
  max_locks = 50;
  max_reserves = 50;
  reserve_identifier = 8;
  dust_removal = none;
  existential_deposit = existential_deposit;
  account_store = ParaPallet.system;
  weight_info = substrate_weight;
  max_freezes = 50;
  done_slash_handler = none;
}

-- Fees are taken in the balances of `currency`, and the fee of a weight is its share of the block,
-- `BlockRatioFee<P, Q, Self>`, times the ratio `weight_to_fee`.
pub record TransactionPaymentConfig (P : Type 0) : Type 0 where
  pub currency : P
  pub operational_fee_multiplier : ℕ
  pub weight_to_fee : ℕ × ℕ
  pub length_to_fee : ℕ → ℕ
  pub fee_multiplier_update : ℕ → ℕ
  pub weight_info : WeightInfo

-- `TransactionByteFee`.
abbrev pub transaction_byte_fee : ℕ
transaction_byte_fee = millicents / 2

-- For `SlowAdjustingFeeUpdate` and `IdentityFee`.
unfoldable solo_transaction_payment : (ℕ → ℕ) → (ℕ → ℕ) → TransactionPaymentConfig SoloPallet
solo_transaction_payment slow_adjusting identity_fee = record {
  currency = SoloPallet.balances;
  operational_fee_multiplier = 5;
  weight_to_fee = (1, 1);
  length_to_fee = identity_fee;
  fee_multiplier_update = slow_adjusting;
  weight_info = substrate_weight;
}

-- For `SlowAdjustingFeeUpdate` and `ConstantMultiplier`.
unfoldable para_transaction_payment : (ℕ → ℕ) → (ℕ → ℕ → ℕ) → TransactionPaymentConfig ParaPallet
para_transaction_payment slow_adjusting constant_multiplier = record {
  currency = ParaPallet.balances;
  operational_fee_multiplier = 5;
  weight_to_fee = (1, 1);
  length_to_fee = constant_multiplier transaction_byte_fee;
  fee_multiplier_update = slow_adjusting;
  weight_info = substrate_weight;
}

-- Of `pallet_sudo` and of `pallet_utility`.
abbrev solo_sudo : WeightInfo
solo_sudo = substrate_weight

abbrev para_sudo : WeightInfo
para_sudo = unit_weights

abbrev solo_utility : WeightInfo
solo_utility = substrate_weight

abbrev para_utility : WeightInfo
para_utility = substrate_weight

-- `create_origin` and `force_origin` are `EnsureSigned` and `EnsureRoot`.
pub data AssetsOrigin : Type 0 where
  ensure_signed ensure_root : AssetsOrigin

pub record AssetsConfig (P : Type 0) : Type 0 where
  pub create_origin : AssetsOrigin
  pub currency : P
  pub force_origin : AssetsOrigin
  pub asset_deposit : ℕ
  pub asset_account_deposit : ℕ
  pub metadata_deposit_base : ℕ
  pub metadata_deposit_per_byte : ℕ
  pub approval_deposit : ℕ
  pub string_limit : ℕ
  pub freezer : Option P
  pub weight_info : WeightInfo
  pub remove_items_limit : ℕ
  pub holder : Option P

unfoldable solo_assets : AssetsConfig SoloPallet
solo_assets = record {
  create_origin = ensure_signed;
  currency = SoloPallet.balances;
  force_origin = ensure_root;
  asset_deposit = asset_deposit;
  asset_account_deposit = asset_account_deposit;
  metadata_deposit_base = metadata_deposit_base;
  metadata_deposit_per_byte = metadata_deposit_per_byte;
  approval_deposit = approval_deposit;
  string_limit = string_limit;
  freezer = none;
  weight_info = substrate_weight;
  remove_items_limit = 1000;
  holder = none;
}

unfoldable para_assets : AssetsConfig ParaPallet
para_assets = record {
  create_origin = ensure_signed;
  currency = ParaPallet.balances;
  force_origin = ensure_root;
  asset_deposit = asset_deposit;
  asset_account_deposit = asset_account_deposit;
  metadata_deposit_base = metadata_deposit_base;
  metadata_deposit_per_byte = metadata_deposit_per_byte;
  approval_deposit = approval_deposit;
  string_limit = string_limit;
  freezer = none;
  weight_info = substrate_weight;
  remove_items_limit = 1000;
  holder = none;
}
