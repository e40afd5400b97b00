-- ===== src/Command/Finish/Subcommands.antt =====
-- node/src/command.rs: how a run with a subcommand ends, with an SDK whose calls succeed.
use ink_node.Base.{
  ◌≡◌, refl, String, Bool, true, false, Option, some, unwrap_or, [], good, bad, Fallible, str_eq,
  ◌||◌,
}
use ink_node.Sdk.{Sdk, ChainSpec, Call, Configuration, CommandArgs, CommandRun}
use ink_node.Prog.{Env, History, run, map_err, or_fail, ◌>>=◌}
use ink_node.Prog.Ends.{Ends, Ends-map_err, Ends-if, Ends-weaken, IsGood}
use ink_node.ChainSpec.Success.{development_config-Ends, local_testnet_config-Ends}
use ink_node.Service.Errors.{CliError}
use ink_node.Service.Partial.{Service, new_partial}
use ink_node.Service.Success.{Succeeds, new_partial-Ends}
use ink_node.Cli.{Cli, Subcommand, BenchmarkCmd}
use ink_node.Command.Settings.{load_spec, with_defaults}
use ink_node.Command.Node.{relay_chain_config}
use ink_node.Command.Run.{
  Done, run_command, create_runner, async_run, run_benchmark, run_subcommand, dispatch, run_cli,
}
use ink_node.Command.Finish.{
  Works, IsBuilt, refused, IsWork, Lands, Finishes, Comes, Comes-bind, run_command-Comes,
  or_fail-Ends, with_runner,
}

module _ (sdk : Sdk) where
  parts-Ends :
      (config : Configuration)
      → Ends Works (λ _. Unit {0}) (map_err CliError.service (new_partial sdk config))
  parts-Ends config =
      Ends-map_err Works (λ _. Unit {0}) _ _
        (Ends-weaken Succeeds Works (λ _. Unit {0}) _ (λ c r ok. ok.0)
          (new_partial-Ends sdk config))

  relay_chain_config-Ends :
      (cli : Cli) (config : Configuration)
      → Ends Works (λ _. Unit {0}) (relay_chain_config sdk cli config)
  unfolding relay_chain_config
  relay_chain_config-Ends cli config = λ base _. λ r ok. or_fail-Ends _ r ok.0

  load_spec-Ends : (id : String) → IsBuilt sdk → Ends Works (λ _. Unit {0}) (load_spec sdk id)
  unfolding load_spec
  load_spec-Ends id (derives, local, dev) =
      Ends-if Works (λ _. Unit {0}) (str_eq id "" || str_eq id "dev") _ _
        (development_config-Ends Works sdk String derives dev)
        (Ends-if Works (λ _. Unit {0}) (str_eq id "ink-parachain-local") _ _
          (local_testnet_config-Ends Works sdk String derives local) (λ r ok. from_file r ok.1))
    where
      from_file :
          (r : Fallible ChainSpec)
          → IsGood r
          → Ends Works (λ _. Unit {0}) (or_fail {E = String} (λ e. e) r)
      from_file (good a) g = tt
      from_file (bad e) g = absurd g

  abbrev with_components : Configuration → (Service → CommandRun) → Done
  with_components config work =
      map_err CliError.service (new_partial sdk config) >>= λ s. run_command (work s)

  -- Where the work needs the parts of a node.
  with_parts :
      (cmd : Subcommand) (config : Configuration) (work : Service → CommandRun)
      → ((s : Service) → IsWork cmd (work s))
      → Comes (Lands cmd) (with_components config work)
  with_parts cmd config work fits =
      Comes-bind (Lands cmd) (map_err CliError.service (new_partial sdk config))
        (λ s. run_command (work s)) (parts-Ends config) λ s. run_command-Comes cmd (work s) (fits s)

  async_run-Comes :
      (cmd : Subcommand) (args : CommandArgs) (work : Service → Configuration → CommandRun)
      → ((s : Service) (config : Configuration) → IsWork cmd (work s config))
      → Comes (Lands cmd) (async_run sdk args work)
  unfolding async_run
  async_run-Comes cmd args work fits =
      with_runner (Lands cmd) args (λ config. with_components config (λ s. work s config))
        λ config. with_parts cmd config (λ s. work s config) (λ s. fits s config)

  run_benchmark-Comes :
      (features : Bool) (args : CommandArgs) (cmd : BenchmarkCmd) (config : Configuration)
      → let c = Subcommand.benchmark args cmd in
        Comes (Finishes (refused features c) c) (run_benchmark sdk features cmd config)
  unfolding run_benchmark
  run_benchmark-Comes false args (BenchmarkCmd.pallet cmd) config = λ env h keeps. refl
  run_benchmark-Comes true args (BenchmarkCmd.pallet cmd) config =
      run_command-Comes (Subcommand.benchmark args (BenchmarkCmd.pallet cmd))
        (CommandRun.benchmark_pallet cmd config.chain_spec) refl
  run_benchmark-Comes false args (BenchmarkCmd.block cmd) config =
      with_parts (Subcommand.benchmark args (BenchmarkCmd.block cmd)) config
        (λ s. CommandRun.benchmark_block cmd s.client) (λ s. refl)
  run_benchmark-Comes true args (BenchmarkCmd.block cmd) config =
      with_parts (Subcommand.benchmark args (BenchmarkCmd.block cmd)) config
        (λ s. CommandRun.benchmark_block cmd s.client) (λ s. refl)
  run_benchmark-Comes false args (BenchmarkCmd.storage cmd) config = λ env h keeps. refl
  run_benchmark-Comes true args (BenchmarkCmd.storage cmd) config =
      with_parts (Subcommand.benchmark args (BenchmarkCmd.storage cmd)) config
        (λ s. CommandRun.benchmark_storage cmd config s.client s.backend) (λ s. refl)
  run_benchmark-Comes false args (BenchmarkCmd.machine cmd) config =
      run_command-Comes (Subcommand.benchmark args (BenchmarkCmd.machine cmd))
        (CommandRun.benchmark_machine cmd config) refl
  run_benchmark-Comes true args (BenchmarkCmd.machine cmd) config =
      run_command-Comes (Subcommand.benchmark args (BenchmarkCmd.machine cmd))
        (CommandRun.benchmark_machine cmd config) refl
  run_benchmark-Comes false args (BenchmarkCmd.other cmd) config = λ env h keeps. refl
  run_benchmark-Comes true args (BenchmarkCmd.other cmd) config = λ env h keeps. refl

  -- `build-spec`, `purge-chain`, `export-genesis-head` and `export-genesis-wasm`, which make their
  -- own runners.
  build_spec-Comes :
      (cmd : CommandArgs)
      → Comes (Lands (Subcommand.build_spec cmd)) (
          create_runner cmd >>= λ config.
          run_command (CommandRun.build_spec cmd config.chain_spec config.network))
  build_spec-Comes cmd =
      with_runner (Lands (Subcommand.build_spec cmd)) cmd
        (λ config. run_command (CommandRun.build_spec cmd config.chain_spec config.network))
        λ config.
          run_command-Comes (Subcommand.build_spec cmd)
            (CommandRun.build_spec cmd config.chain_spec config.network) refl

  purge_chain-Comes :
      (cli : Cli) (cmd : CommandArgs)
      → Comes (Lands (Subcommand.purge_chain cmd)) (
          create_runner cmd >>= λ config. relay_chain_config sdk cli config >>= λ relay.
          run_command (CommandRun.purge_chain cmd config relay))
  purge_chain-Comes cli cmd =
      let lands = Lands (Subcommand.purge_chain cmd) in
      with_runner lands cmd
        (λ config. relay_chain_config sdk cli config >>= λ relay.
          run_command (CommandRun.purge_chain cmd config relay))
        λ config.
          Comes-bind lands (relay_chain_config sdk cli config)
            (λ relay. run_command (CommandRun.purge_chain cmd config relay))
            (relay_chain_config-Ends cli config)
            λ relay.
              run_command-Comes (Subcommand.purge_chain cmd)
                (CommandRun.purge_chain cmd config relay) refl

  export_genesis_wasm-Comes :
      (cmd : CommandArgs) (chain : Option String)
      → IsBuilt sdk
      → Comes (Lands (Subcommand.export_genesis_wasm cmd chain)) (
          create_runner cmd >>= λ config.
          map_err CliError.input (load_spec sdk (unwrap_or "" chain)) >>= λ spec.
          run_command (CommandRun.export_genesis_wasm cmd spec))
  export_genesis_wasm-Comes cmd chain built =
      let lands = Lands (Subcommand.export_genesis_wasm cmd chain) in
      let load = map_err CliError.input (load_spec sdk (unwrap_or "" chain)) in
      let work = λ (spec : ChainSpec). run_command (CommandRun.export_genesis_wasm cmd spec) in
      with_runner lands cmd (λ config. load >>= work)
        λ config.
          Comes-bind lands load work
            (Ends-map_err Works (λ _. Unit {0}) _ _ (load_spec-Ends (unwrap_or "" chain) built))
            λ spec.
              run_command-Comes (Subcommand.export_genesis_wasm cmd chain)
                (CommandRun.export_genesis_wasm cmd spec) refl

  run_subcommand-Comes :
      (features : Bool) (cli : Cli) (cmd : Subcommand)
      → IsBuilt sdk
      → Comes (Finishes (refused features cmd) cmd) (run_subcommand sdk features cli cmd)
  unfolding run_subcommand
  run_subcommand-Comes features cli (Subcommand.build_spec cmd) built = build_spec-Comes cmd
  run_subcommand-Comes features cli (Subcommand.check_block cmd) built =
      async_run-Comes (Subcommand.check_block cmd) cmd
        (λ s config. CommandRun.check_block cmd s.client s.import_queue) (λ s c. refl)
  run_subcommand-Comes features cli (Subcommand.export_blocks cmd) built =
      async_run-Comes (Subcommand.export_blocks cmd) cmd
        (λ s config. CommandRun.export_blocks cmd s.client config.database) (λ s c. refl)
  run_subcommand-Comes features cli (Subcommand.export_state cmd) built =
      async_run-Comes (Subcommand.export_state cmd) cmd
        (λ s config. CommandRun.export_state cmd s.client config.chain_spec) (λ s c. refl)
  run_subcommand-Comes features cli (Subcommand.import_blocks cmd) built =
      async_run-Comes (Subcommand.import_blocks cmd) cmd
        (λ s config. CommandRun.import_blocks cmd s.client s.import_queue) (λ s c. refl)
  run_subcommand-Comes features cli (Subcommand.revert cmd) built =
      async_run-Comes (Subcommand.revert cmd) cmd
        (λ s config. CommandRun.revert cmd s.client s.backend) (λ s c. refl)
  run_subcommand-Comes features cli (Subcommand.purge_chain cmd) built = purge_chain-Comes cli cmd
  run_subcommand-Comes features cli (Subcommand.export_genesis_head cmd) built =
      let c = Subcommand.export_genesis_head cmd in
      let work = λ (s : Service). CommandRun.export_genesis_head cmd s.client in
      with_runner (Lands c) cmd (λ config. with_components config work)
        λ config. with_parts c config work (λ s. refl)
  run_subcommand-Comes features cli (Subcommand.export_genesis_wasm cmd chain) built =
      export_genesis_wasm-Comes cmd chain built
  run_subcommand-Comes features cli (Subcommand.benchmark args cmd) built =
      let c = Subcommand.benchmark args cmd in
      with_runner (Finishes (refused features c) c) args
        (λ config. run_benchmark sdk features cmd config)
        λ config. run_benchmark-Comes features args cmd config

  run_cli-Comes :
      (features : Bool) (cli : Cli) (cmd : Subcommand) (o : Option Subcommand)
      → o ≡ some cmd
      → IsBuilt sdk
      → Comes (Finishes (refused features cmd) cmd) (dispatch sdk features cli o)
  unfolding dispatch
  run_cli-Comes features cli cmd o given built =
      rw (given, dispatch) (run_subcommand-Comes features cli cmd built)

  -- If every call that can fail succeeds, the keys of the built-in specifications can be derived and
  -- both runtimes were built, a command line with a subcommand always comes to an end: the pallet
  -- and storage benchmarks of a build without them, and the benchmarks that the code does not
  -- know, with the error that says so, and every other subcommand well, its last call being its own
  -- work, with its own arguments.
  pub run_cli-Finishes :
      (env : Env) (features : Bool) (cli : Cli) (cmd : Subcommand)
      → ((g : History) (c : Call) → Works c (env g c))
      → IsBuilt sdk
      → cli.subcommand ≡ some cmd
      → Finishes (refused features cmd) cmd (run env [] (run_cli sdk features cli))
  unfolding run_cli with_defaults
  run_cli-Finishes env features cli cmd keeps built given =
      run_cli-Comes features (with_defaults cli) cmd cli.subcommand given built env [] keeps
