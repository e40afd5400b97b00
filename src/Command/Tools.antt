-- ===== src/Command/Tools.antt =====
-- node/src/command.rs: the calls that a subcommand makes.
use ink_node.Base.{
  [], good, bad, String, Bool, true, false, Option, none, some, unwrap_or, str_eq, ◌||◌, Bool-cases,
  inl, inr,
}
use ink_node.Sdk.{
  Sdk, Call, Task, TaskManager, Telemetry, TelemetryWorker, Endpoints, Configuration, CommandArgs,
  CommandRun, Spawn, ChainSpec,
}
use ink_node.Sdk
use ink_node.Prog.{Env, run, map_err, ◌>>=◌}
use ink_node.Prog.Always.{All, Always, Always-run, Always-bind, Always-map_err, Always-or_fail}
use ink_node.Prog.Quiet.{IsQuiet-Always}
use ink_node.ChainSpec.Genesis.{development_config-IsQuiet, local_testnet_config-IsQuiet}
use ink_node.Service.Errors.{CliError}
use ink_node.Service.Partial.{Service, new_partial, connect_telemetry, run_worker, without_empty}
use ink_node.Cli.{Cli, Subcommand, BenchmarkCmd}
use ink_node.Command.Settings.{load_spec}
use ink_node.Command.Node.{relay_chain_config}
use ink_node.Command.Run.{run_subcommand, async_run, run_benchmark, run_command}

abbrev pub IsReport : Task → Type 0
IsReport (Sdk.run_telemetry _) = Unit
IsReport _ = ⊥

-- A call that a tool may make: it builds parts, and neither a network, a relay chain, tasks of a
-- node nor a block, and it runs no task but the one that sends telemetry.
abbrev pub IsTool : Call → Type 0
IsTool (Call.spawn s) = IsReport s.task
IsTool (Call.spawn_tasks _) = ⊥
IsTool (Call.relay_chain_interface _ _ _ _ _ _) = ⊥
IsTool (Call.network _) = ⊥
IsTool (Call.solo_network _) = ⊥
IsTool (Call.offchain_workers _) = ⊥
IsTool (Call.overseer_handle _) = ⊥
IsTool (Call.relay_chain_tasks _) = ⊥
IsTool (Call.seal_block _) = ⊥
IsTool (Call.proposer _) = ⊥
IsTool (Call.run_until_exit _) = ⊥
IsTool _ = Unit

connect_telemetry-IsTool : (e : Option Endpoints) → Always IsTool (connect_telemetry e)
unfolding connect_telemetry
connect_telemetry-IsTool none = tt
connect_telemetry-IsTool (some e) = (tt, Always-or_fail _ _ _ λ worker. (tt, λ _. tt))

run_worker-IsTool :
    (tm : TaskManager) (o : Option (TelemetryWorker × Telemetry)) → Always IsTool (run_worker tm o)
unfolding run_worker
run_worker-IsTool tm none = tt
run_worker-IsTool tm (some (w, t)) = (tt, λ _. tt)

run_command-IsTool : (c : CommandRun) → Always IsTool (run_command c)
run_command-IsTool c = (tt, elim [ good _ ↦ tt | bad _ ↦ tt ])

module _ (sdk : Sdk) where
  new_partial-IsTool : (config : Configuration) → Always IsTool (new_partial sdk config)
  unfolding new_partial
  new_partial-IsTool config =
      Always-bind _ _ _ (connect_telemetry-IsTool (without_empty config.telemetry_endpoints)) λ o. (
        tt,
        Always-or_fail _ _ _ λ parts.
            Always-bind _ _ _ (run_worker-IsTool parts.task_manager o)
              λ t. (tt, λ pool. (tt, λ import. (tt, λ queue. tt))),
      )

  relay_chain_config-IsTool :
      (cli : Cli) (config : Configuration) → Always IsTool (relay_chain_config sdk cli config)
  unfolding relay_chain_config
  relay_chain_config-IsTool cli config = (tt, λ base. (tt, elim [ good _ ↦ tt | bad _ ↦ tt ]))

  load_spec-IsTool : (id : String) → Always IsTool (load_spec sdk id)
  unfolding load_spec
  load_spec-IsTool id = elim (Bool-cases (str_eq id "" || str_eq id "dev")) [
    | inl dev ↦ rw dev (IsQuiet-Always IsTool (development_config-IsQuiet sdk String))
    | inr other ↦ elim (Bool-cases (str_eq id "ink-parachain-local")) [
      | inl local ↦
          rw (other, local) (IsQuiet-Always IsTool (local_testnet_config-IsQuiet sdk String))
      | inr file ↦ rw (other, file) (tt, elim [ good _ ↦ tt | bad _ ↦ tt ])
    ]
  ]

  -- Where a tool needs the parts of a node.
  with_parts-IsTool :
      (config : Configuration) (work : Service → CommandRun)
      → Always IsTool (
          map_err CliError.service (new_partial sdk config) >>= λ components.
          run_command (work components))
  with_parts-IsTool config work =
      Always-bind _ _ _ (Always-map_err _ _ _ (new_partial-IsTool config))
        λ components. run_command-IsTool (work components)

  async_run-IsTool :
      (cmd : CommandArgs) (work : Service → Configuration → CommandRun)
      → Always IsTool (async_run sdk cmd work)
  unfolding async_run
  async_run-IsTool cmd work =
      (tt, Always-or_fail _ _ _ λ config. with_parts-IsTool config (λ c. work c config))

  run_benchmark-IsTool :
      (features : Bool) (cmd : BenchmarkCmd) (config : Configuration)
      → Always IsTool (run_benchmark sdk features cmd config)
  unfolding run_benchmark
  run_benchmark-IsTool false (BenchmarkCmd.pallet cmd) config = tt
  run_benchmark-IsTool true (BenchmarkCmd.pallet cmd) config =
      run_command-IsTool (CommandRun.benchmark_pallet cmd config.chain_spec)
  run_benchmark-IsTool features (BenchmarkCmd.block cmd) config = with_parts-IsTool config _
  run_benchmark-IsTool false (BenchmarkCmd.storage cmd) config = tt
  run_benchmark-IsTool true (BenchmarkCmd.storage cmd) config = with_parts-IsTool config _
  run_benchmark-IsTool features (BenchmarkCmd.machine cmd) config =
      run_command-IsTool (CommandRun.benchmark_machine cmd config)
  run_benchmark-IsTool features (BenchmarkCmd.other cmd) config = tt

  run_subcommand-Always :
      (features : Bool) (cli : Cli) (cmd : Subcommand)
      → Always IsTool (run_subcommand sdk features cli cmd)
  unfolding run_subcommand
  run_subcommand-Always features cli (Subcommand.build_spec cmd) = (
    tt,
    Always-or_fail _ _ _
        λ config. run_command-IsTool (CommandRun.build_spec cmd config.chain_spec config.network),
  )
  run_subcommand-Always features cli (Subcommand.check_block cmd) = async_run-IsTool cmd _
  run_subcommand-Always features cli (Subcommand.export_blocks cmd) = async_run-IsTool cmd _
  run_subcommand-Always features cli (Subcommand.export_state cmd) = async_run-IsTool cmd _
  run_subcommand-Always features cli (Subcommand.import_blocks cmd) = async_run-IsTool cmd _
  run_subcommand-Always features cli (Subcommand.revert cmd) = async_run-IsTool cmd _
  run_subcommand-Always features cli (Subcommand.purge_chain cmd) = (
    tt,
    Always-or_fail _ _ _ λ config.
        Always-bind _ _ _ (relay_chain_config-IsTool cli config)
          λ relay. run_command-IsTool (CommandRun.purge_chain cmd config relay),
  )
  run_subcommand-Always features cli (Subcommand.export_genesis_head cmd) =
      (tt, Always-or_fail _ _ _ λ config. with_parts-IsTool config _)
  run_subcommand-Always features cli (Subcommand.export_genesis_wasm cmd chain) = (
    tt,
    Always-or_fail _ _ _ λ config.
        Always-bind _ _ _ (Always-map_err _ _ _ (load_spec-IsTool (unwrap_or "" chain)))
          λ spec. run_command-IsTool (CommandRun.export_genesis_wasm cmd spec),
  )
  run_subcommand-Always features cli (Subcommand.benchmark args cmd) =
      (tt, Always-or_fail _ _ _ λ config. run_benchmark-IsTool features cmd config)

  -- Whatever the SDK answers, a subcommand joins no relay chain, builds no network, seals no block,
  -- starts no service of a node and runs no task but the one that sends telemetry.
  pub run_subcommand-IsTool :
      (env : Env) (features : Bool) (cli : Cli) (cmd : Subcommand)
      → All IsTool (run env [] (run_subcommand sdk features cli cmd)).0
  run_subcommand-IsTool env features cli cmd =
      Always-run IsTool env [] _ (run_subcommand-Always features cli cmd) tt
