-- ===== src/Command/Finish.antt =====
-- node/src/command.rs: what it is for a run with a subcommand to end as it should.
pub mod Subcommands
use ink_node.Base.{
  ◌≡◌, refl, ◌∙◌, ap, String, Bool, true, false, Option, none, some, unwrap_or, [], ◌∷◌, good, bad,
  Fallible, str_eq, ◌||◌,
}
use ink_node.Sdk.{Sdk, ChainSpec, Call, Reply, Configuration, CommandArgs, CommandRun, of_command}
use ink_node.Sdk
use ink_node.Prog.{
  Prog, ret, fail, abort, call, Outcome, Env, History, run, ok, err, map_err, or_fail, ◌>>=◌,
}
use ink_node.Prog.{Rely}
use ink_node.Prog.Ends.{
  Ends, Ends-run, Ends-bind, Ends-or_fail, Ends-map_err, Ends-if, Ends-weaken, run-bind, IsGood,
  IsSome,
}
use ink_node.ChainSpec.Success.{Derives, development_config-Ends, local_testnet_config-Ends}
use ink_node.Service.Errors.{CliError}
use ink_node.Service.Partial.{Service, new_partial}
use ink_node.Service.Success.{Succeeds, new_partial-Ends}
use ink_node.Cli.{Cli, Subcommand, BenchmarkCmd}
use ink_node.Command.Settings.{load_spec, with_defaults}
use ink_node.Command.Node.{relay_chain_config}
use ink_node.Command.Run.{
  Done, run_command, create_runner, async_run, run_benchmark, run_subcommand, dispatch, run_cli,
}

abbrev pub Answers : Rely
Answers (Call.run_command _) r = IsGood r
Answers (Call.spec_from_file _) r = IsGood r
Answers _ r = Unit

-- The calls of a start succeed, and so do the work of a subcommand and reading a specification.
abbrev pub Works : Rely
Works c r = Succeeds c r × Answers c r

-- The keys of the built-in specifications can be derived, and both runtimes were built.
abbrev pub IsBuilt : Sdk → Type 0
IsBuilt sdk = Derives sdk × IsSome sdk.wasm_binary × IsSome sdk.dev_wasm_binary

-- The error of a benchmark that this build does not support, if it is one.
abbrev refused_benchmark : Bool → BenchmarkCmd → Option CliError
refused_benchmark false (BenchmarkCmd.pallet cmd) = some (
    CliError.input
      "Benchmarking wasn't enabled when building the node. You can enable it with `--features runtime-benchmarks`.")
refused_benchmark false (BenchmarkCmd.storage cmd) =
    some (CliError.input "Compile with --features=runtime-benchmarks to enable storage benchmarks.")
refused_benchmark features (BenchmarkCmd.other cmd) =
    some (CliError.input "Benchmarking sub-command unsupported")
refused_benchmark _ _ = none

abbrev pub refused : Bool → Subcommand → Option CliError
refused features (Subcommand.benchmark args cmd) = refused_benchmark features cmd
refused features _ = none

-- Whether this is the work that a subcommand is there for, with the subcommand's own arguments.
abbrev pub IsWork : Subcommand → CommandRun → Type 0
IsWork (Subcommand.build_spec a) (CommandRun.build_spec b _ _) = a ≡ b
IsWork (Subcommand.check_block a) (CommandRun.check_block b _ _) = a ≡ b
IsWork (Subcommand.export_blocks a) (CommandRun.export_blocks b _ _) = a ≡ b
IsWork (Subcommand.export_state a) (CommandRun.export_state b _ _) = a ≡ b
IsWork (Subcommand.import_blocks a) (CommandRun.import_blocks b _ _) = a ≡ b
IsWork (Subcommand.revert a) (CommandRun.revert b _ _) = a ≡ b
IsWork (Subcommand.purge_chain a) (CommandRun.purge_chain b _ _) = a ≡ b
IsWork (Subcommand.export_genesis_head a) (CommandRun.export_genesis_head b _) = a ≡ b
IsWork (Subcommand.export_genesis_wasm a _) (CommandRun.export_genesis_wasm b _) = a ≡ b
IsWork (Subcommand.benchmark _ (BenchmarkCmd.pallet a)) (CommandRun.benchmark_pallet b _) = a ≡ b
IsWork (Subcommand.benchmark _ (BenchmarkCmd.block a)) (CommandRun.benchmark_block b _) = a ≡ b
IsWork (Subcommand.benchmark _ (BenchmarkCmd.storage a)) (CommandRun.benchmark_storage b _ _ _) =
    a ≡ b
IsWork (Subcommand.benchmark _ (BenchmarkCmd.machine a)) (CommandRun.benchmark_machine b _) = a ≡ b
IsWork _ _ = ⊥

-- What a run leaves: after the last call, which does the work, it ends well.
abbrev pub Lands : Subcommand → History × Outcome CliError (Unit {0}) → Type 0
Lands cmd r =
    (c : CommandRun) × (h : History) × (r ≡ (Call.run_command c ∷ h, ok tt)) × IsWork cmd c

-- It ends as it should: with the error of what is refused, and else with the work done.
abbrev pub Finishes : Option CliError → Subcommand → History × Outcome CliError (Unit {0}) → Type 0
Finishes none cmd r = Lands cmd r
Finishes (some e) cmd r = r.1 ≡ err e

-- Of every run from every history, with calls that work.
abbrev pub Comes : {A : Type 0} → (History × Outcome CliError A → Type 0) → Prog CliError A → Type 0
Comes P m =
    (env : Env) (h : History) → ((g : History) (c : Call) → Works c (env g c)) → P (run env h m)

pub Comes-bind :
    {A B : Type 0} (P : History × Outcome CliError B → Type 0) (m : Prog CliError A)
    (f : A → Prog CliError B)
    → Ends Works (λ _. Unit {0}) m
    → ((a : A) → Comes P (f a))
    → Comes P (m >>= f)
Comes-bind P m f ends next env h keeps =
    let done = Ends-run Works (λ _. Unit {0}) env h m keeps ends in
    rw (run-bind env h m f done.0 done.1) (next done.0 env (run env h m).0 keeps)

pub run_command-Comes :
    (cmd : Subcommand) (c : CommandRun) → IsWork cmd c → Comes (Lands cmd) (run_command c)
run_command-Comes cmd c work env h keeps =
    go (env h (Sdk.run_command c)) (keeps h (Sdk.run_command c)).1
  where
    go :
        (r : Fallible (Unit {0}))
        → IsGood r
        → Lands cmd (run env (Call.run_command c ∷ h) (or_fail CliError.sdk r))
    go (good _) g = (c, h, refl, work)
    go (bad e) g = absurd g

pub or_fail-Ends :
    {A : Type 0} (w : String → CliError) (r : Fallible A)
    → IsGood r
    → Ends Works (λ _. Unit {0}) (or_fail w r)
or_fail-Ends w (good a) g = tt
or_fail-Ends w (bad e) g = absurd g

pub create_runner-Ends : (cmd : CommandArgs) → Ends Works (λ _. Unit {0}) (create_runner cmd)
create_runner-Ends cmd = λ r ok. or_fail-Ends CliError.sdk r ok.0

pub with_runner :
    (P : History × Outcome CliError (Unit {0}) → Type 0) (args : CommandArgs)
    (next : Configuration → Done)
    → ((config : Configuration) → Comes P (next config))
    → Comes P (create_runner args >>= next)
with_runner P args next = Comes-bind P (create_runner args) next (create_runner-Ends args)
