-- ===== src/Command/Serves.antt =====
-- node/src/command.rs: what a subcommand hands to its own work.
pub mod Subcommands
use ink_node.Base.{
  ◌≡◌, refl, sym, subst, String, Option, none, some, map_some, good, bad, str_eq, ◌||◌, Bool-cases,
  inl, inr, unwrap_or,
}
use ink_node.Sdk.{
  Sdk, Call, Reply, Parts, Client, Backend, ChainSpec, ImportQueue, TaskManager, Telemetry,
  TelemetryWorker, Endpoints, Configuration, CommandArgs, CommandRun,
}
use ink_node.Prog.{map_err, ◌>>=◌}
use ink_node.Prog.Always.{Always, Always-or_fail, Always-map_err}
use ink_node.Prog.Quiet.{IsQuiet-Always}
use ink_node.Prog.{Rely}
use ink_node.Prog.Settles.{Gives, Settles, Settles-bind, map_err-bind}
use ink_node.ChainSpec.Genesis.{development_config-IsQuiet, local_testnet_config-IsQuiet}
use ink_node.Service.Errors.{CliError}
use ink_node.Service.Partial.{Service, new_partial, connect_telemetry, run_worker}
use ink_node.Cli.{Subcommand, BenchmarkCmd}
use ink_node.Command.Settings.{load_spec}
use ink_node.Command.Run.{async_run, run_command}

-- What a subcommand needs and came by: its configuration, that of the relay chain, the parts of a
-- node and their import queue.
pub record Desk : Type 0 where
  pub config : Option Configuration
  pub relay : Option Configuration
  pub parts : Option Parts
  pub queue : Option ImportQueue

abbrev spec_on : Desk → Option ChainSpec
spec_on d = map_some (λ (c : Configuration). c.chain_spec) d.config

abbrev client_on : Desk → Option Client
client_on d = map_some (λ (p : Parts). p.client) d.parts

abbrev backend_on : Desk → Option Backend
backend_on d = map_some (λ (p : Parts). p.backend) d.parts

-- The arguments of a subcommand's own work.
abbrev work_args : Subcommand → CommandArgs
work_args (Subcommand.build_spec cmd) = cmd
work_args (Subcommand.check_block cmd) = cmd
work_args (Subcommand.export_blocks cmd) = cmd
work_args (Subcommand.export_state cmd) = cmd
work_args (Subcommand.import_blocks cmd) = cmd
work_args (Subcommand.revert cmd) = cmd
work_args (Subcommand.purge_chain cmd) = cmd
work_args (Subcommand.export_genesis_head cmd) = cmd
work_args (Subcommand.export_genesis_wasm cmd chain) = cmd
work_args (Subcommand.benchmark args (BenchmarkCmd.pallet cmd)) = cmd
work_args (Subcommand.benchmark args (BenchmarkCmd.block cmd)) = cmd
work_args (Subcommand.benchmark args (BenchmarkCmd.storage cmd)) = cmd
work_args (Subcommand.benchmark args (BenchmarkCmd.machine cmd)) = cmd
work_args (Subcommand.benchmark args (BenchmarkCmd.other cmd)) = cmd

-- The specification whose WASM is exported is one that `load_spec` gives for the named chain.
abbrev Exports : Sdk → Subcommand → ChainSpec → Type 0
Exports sdk (Subcommand.export_genesis_wasm cmd chain) spec =
    Gives (load_spec sdk (unwrap_or "" chain)) spec
Exports sdk _ spec = ⊥

-- A subcommand's own work gets its arguments and what lies on the desk.
abbrev Fits : Sdk → Subcommand → Desk → CommandRun → Type 0
Fits sdk sub d (CommandRun.build_spec cmd spec network) =
    (cmd ≡ work_args sub)
    × (spec_on d ≡ some spec)
    × (map_some (λ (c : Configuration). c.network) d.config ≡ some network)
Fits sdk sub d (CommandRun.check_block cmd client queue) =
    (cmd ≡ work_args sub) × (client_on d ≡ some client) × (d.queue ≡ some queue)
Fits sdk sub d (CommandRun.export_blocks cmd client database) =
    (cmd ≡ work_args sub)
    × (client_on d ≡ some client)
    × (map_some (λ (c : Configuration). c.database) d.config ≡ some database)
Fits sdk sub d (CommandRun.export_state cmd client spec) =
    (cmd ≡ work_args sub) × (client_on d ≡ some client) × (spec_on d ≡ some spec)
Fits sdk sub d (CommandRun.import_blocks cmd client queue) =
    (cmd ≡ work_args sub) × (client_on d ≡ some client) × (d.queue ≡ some queue)
Fits sdk sub d (CommandRun.revert cmd client backend) =
    (cmd ≡ work_args sub) × (client_on d ≡ some client) × (backend_on d ≡ some backend)
Fits sdk sub d (CommandRun.purge_chain cmd config relay) =
    (cmd ≡ work_args sub) × (d.config ≡ some config) × (d.relay ≡ some relay)
Fits sdk sub d (CommandRun.export_genesis_head cmd client) =
    (cmd ≡ work_args sub) × (client_on d ≡ some client)
Fits sdk sub d (CommandRun.export_genesis_wasm cmd spec) =
    (cmd ≡ work_args sub) × Exports sdk sub spec
Fits sdk sub d (CommandRun.benchmark_pallet cmd spec) =
    (cmd ≡ work_args sub) × (spec_on d ≡ some spec)
Fits sdk sub d (CommandRun.benchmark_block cmd client) =
    (cmd ≡ work_args sub) × (client_on d ≡ some client)
Fits sdk sub d (CommandRun.benchmark_storage cmd config client backend) =
    (cmd ≡ work_args sub)
    × (d.config ≡ some config)
    × (client_on d ≡ some client)
    × (backend_on d ≡ some backend)
Fits sdk sub d (CommandRun.benchmark_machine cmd config) =
    (cmd ≡ work_args sub) × (d.config ≡ some config)

-- The calls that put something on the desk, and what they are given; and the subcommand's own work.
abbrev pub Serves : Sdk → Subcommand → Desk → Rely
Serves sdk sub d (Call.create_runner _) r = (c : Configuration) → r ≡ good c → d.config ≡ some c
Serves sdk sub d (Call.full_parts_record_import config _ _ _) r =
    (d.config ≡ some config) × ((q : Parts) → r ≡ good q → d.parts ≡ some q)
Serves sdk sub d (Call.verifying_import_queue p) r =
    (client_on d ≡ some p.client) × (d.queue ≡ some r)
Serves sdk sub d (Call.relay_configuration _ handle) r =
    (map_some (λ (c : Configuration). c.tokio_handle) d.config ≡ some handle)
    × ((c : Configuration) → r ≡ good c → d.relay ≡ some c)
Serves sdk sub d (Call.run_command work) r = Fits sdk sub d work
Serves sdk sub d _ r = Unit

-- What lies there for a configuration, before and after the parts are built.
abbrev pub laid : Configuration → Option Parts → Option ImportQueue → Desk
laid c parts queue = record { config = some c; relay = none; parts = parts; queue = queue }

abbrev pub bare : Desk
bare = record { config = none; relay = none; parts = none; queue = none }

-- The desk once the parts are built for a configuration.
abbrev Stocked : Configuration → Parts → (Desk → Type 0) → Desk → Type 0
Stocked c p S d = S d × ((d.config ≡ some c) × ((q : Parts) → good p ≡ good q → d.parts ≡ some q))

-- A call that neither needs nor brings anything.
abbrev Suits : Sdk → Subcommand → (Desk → Type 0) → Call → Type 0
Suits sdk sub S c = (d : Desk) (r : Reply c) → S d → Serves sdk sub d c r

module _ (sdk : Sdk) (sub : Subcommand) (S : Desk → Type 0) where
  connect_telemetry-Suits : (e : Option Endpoints) → Always (Suits sdk sub S) (connect_telemetry e)
  unfolding connect_telemetry
  connect_telemetry-Suits none = tt
  connect_telemetry-Suits (some e) =
      (λ d r s. tt, Always-or_fail _ _ _ λ worker. (λ d r s. tt, λ _. tt))

  run_worker-Suits :
      (tm : TaskManager) (o : Option (TelemetryWorker × Telemetry))
      → Always (Suits sdk sub S) (run_worker tm o)
  unfolding run_worker
  run_worker-Suits tm none = tt
  run_worker-Suits tm (some o) = (λ d r s. tt, λ _. tt)

  pub load_spec-Suits : (id : String) → Always (Suits sdk sub S) (load_spec sdk id)
  unfolding load_spec
  load_spec-Suits id = elim (Bool-cases (str_eq id "" || str_eq id "dev")) [
    | inl dev ↦ rw dev (IsQuiet-Always (Suits sdk sub S) (development_config-IsQuiet sdk String))
    | inr other ↦ elim (Bool-cases (str_eq id "ink-parachain-local")) [
      | inl local ↦
          rw (other, local)
            (IsQuiet-Always (Suits sdk sub S) (local_testnet_config-IsQuiet sdk String))
      | inr file ↦ rw (other, file) (λ d r s. tt, elim [ good _ ↦ tt | bad _ ↦ tt ])
    ]
  ]

  -- The subcommand's own work is the last call.
  pub run_command-Settles :
      (d : Desk) (work : CommandRun)
      → S d
      → Fits sdk sub d work
      → Settles (Serves sdk sub) S (run_command work)
  run_command-Settles d work s fits = elim [ good _ ↦ (d, (s, fits)) | bad _ ↦ (d, (s, fits)) ]

module _ (sdk : Sdk) (sub : Subcommand) where
  -- Where the work needs the parts of a node.
  pub with_parts-Settles :
      (S : Desk → Type 0) (c : Configuration) (work : Service → CommandRun)
      → ((parts : Option Parts) (queue : Option ImportQueue) → S (laid c parts queue))
      → ((s : Service) (p : Parts)
          → s.client ≡ p.client
          → s.backend ≡ p.backend
          → Fits sdk sub (laid c (some p) (some s.import_queue)) (work s))
      → Settles
          (Serves sdk sub)
          S
          (map_err CliError.service (new_partial sdk c) >>= λ s. run_command (work s))
  unfolding new_partial
  with_parts-Settles S c work suits fits =
      subst (Settles (Serves sdk sub) S)
        (sym (map_err-bind CliError.service (connect_telemetry _) _ (λ s. run_command (work s))))
        (Settles-bind (Serves sdk sub) S (laid c none none)
          (map_err CliError.service (connect_telemetry _)) _ (suits none none)
          (Always-map_err _ _ _ (connect_telemetry-Suits sdk sub S _))
          λ o _. elim [
            | bad e ↦ (laid c none none, (suits none none, (refl, λ q h. cc)))
            | good p ↦
                subst (Settles (Serves sdk sub) (Stocked c p S))
                  (sym (
                    map_err-bind CliError.service (run_worker p.task_manager o) _
                      (λ s. run_command (work s))))
                  (Settles-bind (Serves sdk sub) (Stocked c p S) (laid c (some p) none)
                    (map_err CliError.service (run_worker p.task_manager o)) _
                    (suits (some p) none, (refl, λ q h. cc))
                    (Always-map_err _ _ _
                      (run_worker-Suits sdk sub (Stocked c p S) p.task_manager o))
                    λ t _ pool import queue.
                      run_command-Settles sdk sub _ (laid c (some p) (some queue)) (work _)
                        ((((suits (some p) (some queue), (refl, λ q h. cc)), tt), tt), (refl, refl))
                        (fits _ p refl refl))
          ])

  pub async_run-Settles :
      (cmd : CommandArgs) (work : Service → Configuration → CommandRun)
      → ((s : Service) (c : Configuration) (p : Parts)
          → s.client ≡ p.client
          → s.backend ≡ p.backend
          → Fits sdk sub (laid c (some p) (some s.import_queue)) (work s c))
      → Settles (Serves sdk sub) (λ _. Unit {0}) (async_run sdk cmd work)
  unfolding async_run
  async_run-Settles cmd work fits = elim [
    | bad e ↦ (bare, (tt, λ c h. cc))
    | good c ↦
        with_parts-Settles _ c (λ s. work s c) (λ parts queue. (tt, λ d h. cc)) (λ s p. fits s c p)
  ]
