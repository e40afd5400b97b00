-- ===== src/Command/Serves/Subcommands.antt =====
-- node/src/command.rs: the subcommands one by one, and what they hand to their own work.
use ink_node.Base.{◌≡◌, refl, Bool, true, false, none, some, [], unwrap_or, good, bad}
use ink_node.Sdk.{Sdk, Configuration, CommandArgs, CommandRun}
use ink_node.Prog.{Env, run, map_err}
use ink_node.Prog.Always.{Always-map_err}
use ink_node.Prog.Settles.{AllReplies, Settles, Settles-run, Settles-bind, Gives-map_err}
use ink_node.Service.Errors.{CliError}
use ink_node.Cli.{Cli, Subcommand, BenchmarkCmd}
use ink_node.Command.Settings.{load_spec}
use ink_node.Command.Node.{relay_chain_config}
use ink_node.Command.Run.{run_subcommand, run_benchmark}
use ink_node.Command.Serves.{
  Desk, Serves, laid, bare, load_spec-Suits, run_command-Settles, with_parts-Settles,
  async_run-Settles,
}

-- The runner's configuration lies on the desk.
abbrev Ready : Configuration → Desk → Type 0
Ready c d = Unit {0} × ((e : Configuration) → good c ≡ good e → d.config ≡ some e)

module _ (sdk : Sdk) where
  run_benchmark-Settles :
      (features : Bool) (args : CommandArgs) (cmd : BenchmarkCmd) (c : Configuration)
      → Settles
          (Serves sdk (Subcommand.benchmark args cmd))
          (Ready c)
          (run_benchmark sdk features cmd c)
  unfolding run_benchmark
  run_benchmark-Settles false args (BenchmarkCmd.pallet cmd) c = (laid c none none, (tt, λ e h. cc))
  run_benchmark-Settles true args (BenchmarkCmd.pallet cmd) c =
      run_command-Settles sdk (Subcommand.benchmark args (BenchmarkCmd.pallet cmd)) (Ready c)
        (laid c none none) (CommandRun.benchmark_pallet cmd c.chain_spec) (tt, λ e h. cc)
        (refl, refl)
  run_benchmark-Settles features args (BenchmarkCmd.block cmd) c =
      with_parts-Settles sdk (Subcommand.benchmark args (BenchmarkCmd.block cmd)) (Ready c) c
        (λ s. CommandRun.benchmark_block cmd s.client) (λ parts queue. (tt, λ e h. cc))
        (λ s p client backend. (refl, cc))
  run_benchmark-Settles false args (BenchmarkCmd.storage cmd) c =
      (laid c none none, (tt, λ e h. cc))
  run_benchmark-Settles true args (BenchmarkCmd.storage cmd) c =
      with_parts-Settles sdk (Subcommand.benchmark args (BenchmarkCmd.storage cmd)) (Ready c) c
        (λ s. CommandRun.benchmark_storage cmd c s.client s.backend)
        (λ parts queue. (tt, λ e h. cc)) (λ s p client backend. (refl, refl, cc, cc))
  run_benchmark-Settles features args (BenchmarkCmd.machine cmd) c =
      run_command-Settles sdk (Subcommand.benchmark args (BenchmarkCmd.machine cmd)) (Ready c)
        (laid c none none) (CommandRun.benchmark_machine cmd c) (tt, λ e h. cc) (refl, refl)
  run_benchmark-Settles features args (BenchmarkCmd.other cmd) c =
      (laid c none none, (tt, λ e h. cc))

  run_subcommand-Settles :
      (features : Bool) (cli : Cli) (sub : Subcommand)
      → Settles (Serves sdk sub) (λ _. Unit {0}) (run_subcommand sdk features cli sub)
  unfolding run_subcommand relay_chain_config
  run_subcommand-Settles features cli (Subcommand.build_spec cmd) = elim [
    | bad e ↦ (bare, (tt, λ c h. cc))
    | good c ↦
        run_command-Settles sdk (Subcommand.build_spec cmd) (Ready c) (laid c none none)
          (CommandRun.build_spec cmd c.chain_spec c.network) (tt, λ e h. cc) (refl, refl, refl)
  ]
  run_subcommand-Settles features cli (Subcommand.check_block cmd) =
      async_run-Settles sdk (Subcommand.check_block cmd) cmd
        (λ s c. CommandRun.check_block cmd s.client s.import_queue)
        (λ s c p client backend. (refl, cc, refl))
  run_subcommand-Settles features cli (Subcommand.export_blocks cmd) =
      async_run-Settles sdk (Subcommand.export_blocks cmd) cmd
        (λ s c. CommandRun.export_blocks cmd s.client c.database)
        (λ s c p client backend. (refl, cc, refl))
  run_subcommand-Settles features cli (Subcommand.export_state cmd) =
      async_run-Settles sdk (Subcommand.export_state cmd) cmd
        (λ s c. CommandRun.export_state cmd s.client c.chain_spec)
        (λ s c p client backend. (refl, cc, refl))
  run_subcommand-Settles features cli (Subcommand.import_blocks cmd) =
      async_run-Settles sdk (Subcommand.import_blocks cmd) cmd
        (λ s c. CommandRun.import_blocks cmd s.client s.import_queue)
        (λ s c p client backend. (refl, cc, refl))
  run_subcommand-Settles features cli (Subcommand.revert cmd) =
      async_run-Settles sdk (Subcommand.revert cmd) cmd
        (λ s c. CommandRun.revert cmd s.client s.backend) (λ s c p client backend. (refl, cc, cc))
  run_subcommand-Settles features cli (Subcommand.purge_chain cmd) = elim [
    | bad e ↦ (bare, (tt, λ c h. cc))
    | good c ↦ λ base. elim [
      | bad e ↦ (laid c none none, (((tt, λ e h. cc), tt), (refl, λ e h. cc)))
      | good relay ↦
          run_command-Settles sdk (Subcommand.purge_chain cmd) _
            (record (laid c none none) { relay = some relay }) (CommandRun.purge_chain cmd c relay)
            (((tt, λ e h. cc), tt), (refl, λ e h. cc)) (refl, refl, refl)
    ]
  ]
  run_subcommand-Settles features cli (Subcommand.export_genesis_head cmd) = elim [
    | bad e ↦ (bare, (tt, λ c h. cc))
    | good c ↦
        with_parts-Settles sdk (Subcommand.export_genesis_head cmd) (Ready c) c
          (λ s. CommandRun.export_genesis_head cmd s.client) (λ parts queue. (tt, λ e h. cc))
          (λ s p client backend. (refl, cc))
  ]
  run_subcommand-Settles features cli (Subcommand.export_genesis_wasm cmd chain) = elim [
    | bad e ↦ (bare, (tt, λ c h. cc))
    | good c ↦
        Settles-bind (Serves sdk (Subcommand.export_genesis_wasm cmd chain)) (Ready c)
          (laid c none none) (map_err CliError.input (load_spec sdk (unwrap_or "" chain))) _
          (tt, λ e h. cc)
          (Always-map_err _ _ _ (
            load_spec-Suits sdk (Subcommand.export_genesis_wasm cmd chain) (Ready c)
              (unwrap_or "" chain)))
          λ spec given.
            run_command-Settles sdk (Subcommand.export_genesis_wasm cmd chain) (Ready c)
              (laid c none none) (CommandRun.export_genesis_wasm cmd spec) (tt, λ e h. cc)
              (refl, Gives-map_err CliError.input (load_spec sdk (unwrap_or "" chain)) spec given)
  ]
  run_subcommand-Settles features cli (Subcommand.benchmark args cmd) = elim [
    | bad e ↦ (bare, (tt, λ c h. cc))
    | good c ↦ run_benchmark-Settles features args cmd c
  ]

  -- However the SDK answers, there are a configuration, a relay chain's configuration, the parts of a
  -- node and an import queue such that each call of a subcommand that asks for one of these got it,
  -- or failed, the parts are built for that configuration and the import queue for their client, and
  -- whatever work the subcommand runs gets the subcommand's own arguments and, of clients, backends,
  -- import queues, databases, networks, configurations and specifications, the one of those. The
  -- specification whose WASM is exported is one that `load_spec` gives for the chain that the
  -- subcommand names. The chain that is purged is that of the
  -- runner's configuration, with the relay chain's configuration beside it.
  pub run_subcommand-Serves :
      (env : Env) (features : Bool) (cli : Cli) (sub : Subcommand)
      → (d : Desk) × AllReplies
          (Serves sdk sub d)
          env
          (run env [] (run_subcommand sdk features cli sub)).0
  run_subcommand-Serves env features cli sub =
      Settles-run (Serves sdk sub) (λ _. Unit {0}) env [] (run_subcommand sdk features cli sub)
        (run_subcommand-Settles features cli sub) (λ d _. tt)
