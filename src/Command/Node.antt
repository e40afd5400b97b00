-- ===== src/Command/Node.antt =====
-- node/src/command.rs: the node that a command line without a subcommand runs.
use ink_node.Base.{
  ℕ, String, ◌<>◌, Bool, Option, none, some, not, then_some, ◌∷◌, str_eq, if◌then◌else◌,
}
use ink_node.Sdk.{Sdk, TaskManager, Client, HwBench, Configuration, RelayChainCli}
use ink_node.Sdk
use ink_node.Prog.{Prog, ret, ask, or_fail, ok_or, map_err, ◌>>=◌, ◌>>◌}
use ink_node.Service.Errors.{CliError}
use ink_node.Service.Development.{new_full}
use ink_node.Service.DevParachain.{start_dev_parachain_node}
use ink_node.Service.Parachain.{start_parachain_node}
use ink_node.Cli.{Cli, is_instant_seal, try_get, new_relay_chain_cli}

abbrev pub flatten {ℓ} : {A : Type ℓ} → Option (Option A) → Option A
flatten none = none
flatten (some o) = o

-- `config.database.path().map(|database_path| { … })`.
unfoldable pub measure : Option String → Prog CliError (Option HwBench)
measure none = ret none
measure (some database_path) = do
  ask (Sdk.create_dir_all database_path)
  bench ← ask (Sdk.gather_hwbench database_path)
  ret (some bench)

-- `(!cli.no_hardware_benchmarks).then_some(…).flatten()`. The argument of `then_some` is evaluated
-- before the call, whatever the flag says.
unfoldable pub hardware_benchmark : Bool → Option String → Prog CliError (Option HwBench)
unfolding measure
hardware_benchmark no_hardware_benchmarks path = do
  measured ← measure path
  ret (flatten (then_some (not no_hardware_benchmarks) measured))

abbrev pub relay_argument_error : String → CliError
relay_argument_error e = CliError.input ("Relay chain argument error: " <> e)

module _ (sdk : Sdk) where
  -- `RelayChainCli::new` and `create_configuration`, which `purge-chain` needs too.
  unfoldable pub relay_chain_config : Cli → Configuration → Prog CliError Configuration
  unfolding new_relay_chain_cli
  relay_chain_config cli config = do
    polkadot_cli ← new_relay_chain_cli sdk config (sdk.executable_name ∷ cli.relay_chain_args)
    ask (Sdk.relay_configuration polkadot_cli config.tokio_handle) >>= or_fail relay_argument_error

  -- The collator or full node of a parachain.
  unfoldable pub run_parachain : Cli → ℕ → Configuration → Prog CliError TaskManager
  unfolding hardware_benchmark try_get
  run_parachain cli collator_options config = do
    hwbench ← hardware_benchmark cli.no_hardware_benchmarks config.database
    extensions ←
        ok_or (CliError.input "Could not find parachain ID in chain-spec.")
          (try_get sdk config.chain_spec)
    polkadot_config ← relay_chain_config cli config
    started ← map_err CliError.service (
        start_parachain_node sdk config polkadot_config collator_options extensions.para_id hwbench)
    ret started.0

  -- The closure of `run_node_until_exit`.
  unfoldable pub start_node : Cli → ℕ → Configuration → Prog CliError TaskManager
  start_node cli collator_options config =
      if str_eq config.chain_spec.name "Development"
      then map_err CliError.service (new_full sdk config cli.finalize_delay_sec)
      else if is_instant_seal cli
      then map_err CliError.service (start_dev_parachain_node sdk config cli.finalize_delay_sec)
      else run_parachain cli collator_options config
