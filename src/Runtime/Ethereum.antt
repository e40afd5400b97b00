-- ===== src/Runtime/Ethereum.antt =====
-- runtime/src/revive_config.rs and parachain-runtime/src/revive_config.rs: the configuration of the
-- revive pallet, by its constants.
use ink_node.Base.{ℕ, ◌*◌, Bool, true, false, List, [], ◌∷◌}
use ink_node.Runtime.Deposits.{deposit_per_item, deposit_per_child_trie_item, deposit_per_byte}

-- `ERC20` with the prefix of its inline identifiers, `DemoPrecompile` and `XcmPrecompile`.
pub data Precompile : Type 0 where
  erc20 : ℕ → Precompile
  demo_precompile xcm_precompile : Precompile

pub record ReviveConfig : Type 0 where
  pub deposit_per_item : ℕ
  pub deposit_per_child_trie_item : ℕ
  pub deposit_per_byte : ℕ
  pub precompiles : List Precompile
  pub runtime_memory : ℕ
  pub pvf_memory : ℕ
  pub unsafe_unstable_interface : Bool
  pub code_hash_lockup_deposit_percent : ℕ
  pub chain_id : ℕ
  pub native_to_eth_ratio : ℕ
  pub allow_evm_bytecode : Bool
  pub max_eth_extrinsic_weight : ℕ × ℕ
  pub debug_enabled : Bool
  pub gas_scale : ℕ

unfoldable solo_revive : ReviveConfig
solo_revive = record {
  deposit_per_item = deposit_per_item;
  deposit_per_child_trie_item = deposit_per_child_trie_item;
  deposit_per_byte = deposit_per_byte;
  precompiles = erc20 288 ∷ demo_precompile ∷ [];
  runtime_memory = 128 * 1024 * 1024;
  pvf_memory = 512 * 1024 * 1024;
  unsafe_unstable_interface = true;
  code_hash_lockup_deposit_percent = 0;
  chain_id = 420_420_420;
  native_to_eth_ratio = 100_000_000;
  allow_evm_bytecode = false;
  max_eth_extrinsic_weight = (1, 2);
  debug_enabled = false;
  gas_scale = 1000;
}

unfoldable para_revive : ReviveConfig
para_revive = record {
  deposit_per_item = deposit_per_item;
  deposit_per_child_trie_item = deposit_per_child_trie_item;
  deposit_per_byte = deposit_per_byte;
  precompiles = erc20 288 ∷ xcm_precompile ∷ [];
  runtime_memory = 128 * 1024 * 1024;
  pvf_memory = 512 * 1024 * 1024;
  unsafe_unstable_interface = true;
  code_hash_lockup_deposit_percent = 0;
  chain_id = 420_420_420;
  native_to_eth_ratio = 100_000_000;
  allow_evm_bytecode = false;
  max_eth_extrinsic_weight = (1, 2);
  debug_enabled = false;
  gas_scale = 1000;
}
