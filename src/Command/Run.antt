-- ===== src/Command/Run.antt =====
-- node/src/command.rs: `run`, the subcommands and the node.
use ink_node.Base.{Bool, true, false, Option, none, some, unwrap_or}
use ink_node.Sdk.{
  Sdk, Client, ImportQueue, Configuration, CommandArgs, CommandRun, of_command, of_run,
}
use ink_node.Sdk
use ink_node.Prog.{Prog, fail, ask, or_fail, map_err, ◌>>=◌, ◌>>◌}
use ink_node.Service.Errors.{CliError}
use ink_node.Service.Partial.{Service, new_partial}
use ink_node.Cli.{Cli, Subcommand, BenchmarkCmd}
use ink_node.Command.Settings.{load_spec, with_defaults}
use ink_node.Command.Node.{relay_chain_config, start_node}

abbrev pub Done : Type 0
Done = Prog CliError (Unit {0})

-- `cmd.run(…)`.
abbrev pub run_command : CommandRun → Done
run_command c = ask (Sdk.run_command c) >>= or_fail CliError.sdk

-- `cli.create_runner(cmd)?`, which gives the configuration that the runner's closure gets.
abbrev pub create_runner : CommandArgs → Prog CliError Configuration
create_runner cmd = ask (Sdk.create_runner (of_command cmd)) >>= or_fail CliError.sdk

module _ (sdk : Sdk) where
  -- `construct_async_run!`.
  unfoldable pub async_run : CommandArgs → (Service → Configuration → CommandRun) → Done
  async_run cmd code = do
    config ← create_runner cmd
    components ← map_err CliError.service (new_partial sdk config)
    run_command (code components config)

  -- The `Benchmark` arm; `features` says whether `runtime-benchmarks` is enabled.
  unfoldable pub run_benchmark : Bool → BenchmarkCmd → Configuration → Done
  run_benchmark false (BenchmarkCmd.pallet cmd) config = fail (
      CliError.input
        "Benchmarking wasn't enabled when building the node. You can enable it with `--features runtime-benchmarks`.")
  run_benchmark true (BenchmarkCmd.pallet cmd) config =
      run_command (CommandRun.benchmark_pallet cmd config.chain_spec)
  run_benchmark features (BenchmarkCmd.block cmd) config = do
    partials ← map_err CliError.service (new_partial sdk config)
    run_command (CommandRun.benchmark_block cmd partials.client)
  run_benchmark false (BenchmarkCmd.storage cmd) config =
      fail
        (CliError.input "Compile with --features=runtime-benchmarks to enable storage benchmarks.")
  run_benchmark true (BenchmarkCmd.storage cmd) config = do
    partials ← map_err CliError.service (new_partial sdk config)
    run_command (CommandRun.benchmark_storage cmd config partials.client partials.backend)
  run_benchmark features (BenchmarkCmd.machine cmd) config =
      run_command (CommandRun.benchmark_machine cmd config)
  run_benchmark features (BenchmarkCmd.other cmd) config =
      fail (CliError.input "Benchmarking sub-command unsupported")

  unfoldable pub run_subcommand : Bool → Cli → Subcommand → Done
  unfolding async_run run_benchmark
  run_subcommand features cli (Subcommand.build_spec cmd) = do
    config ← create_runner cmd
    run_command (CommandRun.build_spec cmd config.chain_spec config.network)
  run_subcommand features cli (Subcommand.check_block cmd) =
      async_run cmd
        λ components config. CommandRun.check_block cmd components.client components.import_queue
  run_subcommand features cli (Subcommand.export_blocks cmd) =
      async_run cmd
        λ components config. CommandRun.export_blocks cmd components.client config.database
  run_subcommand features cli (Subcommand.export_state cmd) =
      async_run cmd
        λ components config. CommandRun.export_state cmd components.client config.chain_spec
  run_subcommand features cli (Subcommand.import_blocks cmd) =
      async_run cmd
        λ components config. CommandRun.import_blocks cmd components.client components.import_queue
  run_subcommand features cli (Subcommand.revert cmd) =
      async_run cmd λ components config. CommandRun.revert cmd components.client components.backend
  run_subcommand features cli (Subcommand.purge_chain cmd) = do
    config ← create_runner cmd
    polkadot_config ← relay_chain_config sdk cli config
    run_command (CommandRun.purge_chain cmd config polkadot_config)
  run_subcommand features cli (Subcommand.export_genesis_head cmd) = do
    config ← create_runner cmd
    partials ← map_err CliError.service (new_partial sdk config)
    run_command (CommandRun.export_genesis_head cmd partials.client)
  run_subcommand features cli (Subcommand.export_genesis_wasm cmd chain) = do
    create_runner cmd
    spec ← map_err CliError.input (load_spec sdk (unwrap_or "" chain))
    run_command (CommandRun.export_genesis_wasm cmd spec)
  run_subcommand features cli (Subcommand.benchmark args cmd) = do
    config ← create_runner args
    run_benchmark features cmd config

  -- The `None` arm.
  unfoldable pub run_node : Cli → Done
  run_node cli = do
    config ← ask (Sdk.create_runner (of_run (sdk.normalize cli.run))) >>= or_fail CliError.sdk
    task_manager ← start_node sdk cli (sdk.collator_options cli.run) config
    ask (Sdk.run_until_exit task_manager) >>= or_fail CliError.sdk

  unfoldable pub dispatch : Bool → Cli → Option Subcommand → Done
  unfolding run_subcommand run_node
  dispatch features cli none = run_node cli
  dispatch features cli (some cmd) = run_subcommand features cli cmd

  -- `run`, after `Cli::from_args`.
  unfoldable pub run_cli : Bool → Cli → Done
  unfolding dispatch with_defaults
  run_cli features cli = let cli' = with_defaults cli in dispatch features cli' cli'.subcommand
