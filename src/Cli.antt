-- ===== src/Cli.antt =====
-- node/src/cli.rs: the command line's options and subcommands, and `RelayChainCli::new`.
use ink_node.Base.{ℕ, String, Bool, Option, some, map_some, List}
use ink_node.Sdk.{Sdk, CommandArgs, RunCmd, RelayChainCli, Extensions, ChainSpec, Configuration}
use ink_node.Sdk
use ink_node.Prog.{Prog, ret, ask, ◌>>=◌}

-- `frame_benchmarking_cli::BenchmarkCmd`, with the variants that node/src/command.rs names.
pub data BenchmarkCmd : Type 0 where
  pallet : CommandArgs → BenchmarkCmd
  block : CommandArgs → BenchmarkCmd
  storage : CommandArgs → BenchmarkCmd
  machine : CommandArgs → BenchmarkCmd
  other : CommandArgs → BenchmarkCmd

-- `export_genesis_wasm` carries its `--chain` too.
pub data Subcommand : Type 0 where
  build_spec : CommandArgs → Subcommand
  check_block : CommandArgs → Subcommand
  export_blocks : CommandArgs → Subcommand
  export_state : CommandArgs → Subcommand
  import_blocks : CommandArgs → Subcommand
  revert : CommandArgs → Subcommand
  purge_chain : CommandArgs → Subcommand
  export_genesis_head : CommandArgs → Subcommand
  export_genesis_wasm : CommandArgs → Option String → Subcommand
  benchmark : CommandArgs → BenchmarkCmd → Subcommand

-- `finalize_delay_sec` is a `u8`.
pub record Cli : Type 0 where
  pub subcommand : Option Subcommand
  pub run : RunCmd
  pub no_hardware_benchmarks : Bool
  pub relay_chain_args : List String
  pub finalize_delay_sec : ℕ
  pub instant_seal : Bool

abbrev pub is_instant_seal : Cli → Bool
is_instant_seal cli = cli.instant_seal

abbrev pub relay_chain_of : Extensions → String
relay_chain_of e = e.relay_chain

module _ (sdk : Sdk) where
  -- `Extensions::try_get`.
  unfoldable pub try_get : ChainSpec → Option Extensions
  try_get chain_spec = sdk.get_extension chain_spec.extensions

  unfoldable pub new_relay_chain_cli :
      {E : Type 0} → Configuration → List String → Prog E RelayChainCli
  unfolding try_get
  new_relay_chain_cli para_config relay_chain_args = do
    let chain_id = map_some relay_chain_of (try_get para_config.chain_spec)
    let base_path = sdk.join para_config.base_path "polkadot"
    base ← ask (Sdk.parse_relay_args relay_chain_args)
    ret (record { base_path = some base_path; chain_id = chain_id; base = base })
