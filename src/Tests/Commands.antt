-- ===== src/Tests/Commands.antt =====
-- The theorems about whole command lines at concrete inputs.
use ink_node.Base.{List, ℕ, String, ◌≡◌, refl, ◌++◌, [], ◌∷◌, some, inr, true}
use ink_node.Sdk.{ChainSpec, Configuration, Call}
use ink_node.Prog.{map_err, History, run, ok}
use ink_node.Prog.Settles.{AllReplies}
use ink_node.Prog.Trace.{Kind, trace}
use ink_node.Service.Success.{Succeeds}
use ink_node.Service.Errors.{CliError}
use ink_node.Service.Development.{new_full}
use ink_node.ChainSpec.Genesis.{IsDevelopment, IsLocal}
use ink_node.Cli.{Cli, Subcommand}
use ink_node.Command.Settings.{load_spec, with_defaults}
use ink_node.Command.Node.{start_node}
use ink_node.Command.Specs.{load_spec-start_node, load_spec-IsLocal}
use ink_node.Command.Run.{run_cli, run_subcommand}
use ink_node.Command.Start.{start_schedule}
use ink_node.Command.Success.{run_cli-completes}
use ink_node.Command.Serves.{Desk, Serves}
use ink_node.Command.Serves.Subcommands.{run_subcommand-Serves}
use ink_node.Tests.World.{test_sdk, test_env, test_config, test_cli}

test_env-Succeeds : (h : History) (c : Call) → Succeeds c (test_env h c)
test_env-Succeeds h (Call.telemetry_worker _) = tt
test_env-Succeeds h (Call.full_parts_record_import _ _ _ _) = tt
test_env-Succeeds h (Call.full_parts _ _ _) = tt
test_env-Succeeds h (Call.spawn_tasks _) = tt
test_env-Succeeds h (Call.relay_chain_interface _ _ _ _ _ _) = (37, 38, refl)
test_env-Succeeds h (Call.network _) = tt
test_env-Succeeds h (Call.solo_network _) = tt
test_env-Succeeds h (Call.offchain_workers _) = tt
test_env-Succeeds h (Call.overseer_handle _) = tt
test_env-Succeeds h (Call.relay_chain_tasks _) = tt
test_env-Succeeds h (Call.slot_duration _) = tt
test_env-Succeeds h (Call.create_runner _) = tt
test_env-Succeeds h (Call.relay_configuration _ _) = tt
test_env-Succeeds h (Call.run_until_exit _) = tt
test_env-Succeeds h _ = tt

run_cli-completes_example :
    ((run test_env [] (run_cli test_sdk true test_cli)).1 ≡ ok tt)
    × (trace (run test_env [] (run_cli test_sdk true test_cli)).0
        ≡ Kind.create_runner
          ∷ (start_schedule test_sdk (with_defaults test_cli) test_config
              ++ (Kind.run_until_exit ∷ [])))
run_cli-completes_example =
    run_cli-completes test_sdk test_env true test_cli test_config test_env-Succeeds refl (inr tt)
      refl

run_subcommand-Serves_example :
    (d : Desk) × AllReplies
      (Serves test_sdk (Subcommand.purge_chain 5) d)
      test_env
      (run test_env [] (run_subcommand test_sdk true test_cli (Subcommand.purge_chain 5))).0
run_subcommand-Serves_example =
    run_subcommand-Serves test_sdk test_env true test_cli (Subcommand.purge_chain 5)

abbrev purge_cli : Cli
purge_cli = record test_cli { subcommand = some (Subcommand.purge_chain 5) }

abbrev from_purge : List String → Cli
from_purge args = purge_cli

load_spec-start_node_example :
    (spec : ChainSpec) × (run test_env [] (load_spec test_sdk "dev") ≡ ([], ok spec))
    × IsDevelopment spec
    × ((cli : Cli) (options : ℕ) (config : Configuration)
        → config.chain_spec ≡ spec
        → start_node test_sdk cli options config
          ≡ map_err CliError.service (new_full test_sdk config cli.finalize_delay_sec))
load_spec-start_node_example =
    load_spec-start_node test_sdk test_env [] "dev" (inr refl) (λ seed. tt) tt

load_spec-IsLocal_example :
    (spec : ChainSpec) × (run test_env [] (load_spec test_sdk "ink-parachain-local")
      ≡ ([], ok spec))
    × IsLocal spec
load_spec-IsLocal_example = load_spec-IsLocal test_sdk test_env [] (λ seed. tt) tt
