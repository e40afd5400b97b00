-- ===== src/Tests/Node.antt =====
-- The theorems about the node at concrete inputs.
use ink_node.Base.{
  ℕ, String, ◌≡◌, refl, ◌↔◌, Bool, true, false, Option, none, some, [], ◌∷◌, good, bad, ◌/◌, ◌%◌,
  arith, Fallible,
}
use ink_node.Sdk.{Call, Sdk, ChainSpec, Configuration, RelayChainCli, Extensions, FullDeps}
use ink_node.Sdk
use ink_node.Prog.{run, ok}
use ink_node.Prog.Trace.{Refines, IsOk}
use ink_node.Prog.Always.{All}
use ink_node.Prog.Settles.{AllReplies}
use ink_node.Service.Partial.{without_empty}
use ink_node.Service.Parachain.{start_parachain_node}
use ink_node.Service.DevParachain.{start_dev_parachain_node}
use ink_node.Service.Development.{new_full}
use ink_node.Service.Schedule.{parachain_schedule, dev_parachain_schedule, development_schedule}
use ink_node.Service.Start.Parachain.{start_parachain_node-Refines}
use ink_node.Service.Start.DevParachain.{start_dev_parachain_node-Refines}
use ink_node.Service.Start.Development.{new_full-Refines}
use ink_node.Service.Wiring.Parts.{Wires, Wired}
use ink_node.Service.Wiring.Starts.{start_parachain_node-Wired, instant_seal-Wired}
use ink_node.Service.Peers.{IsAlone, start_dev_parachain_node-IsAlone}
use ink_node.Service.DevInherents.{create_dev_inherents, DevInherents, go_ahead}
use ink_node.Service.Hardware.{report_hardware}
use ink_node.Service.Warnings.{warned, report_hardware-warned}
use ink_node.Command.ParaId.{start_node-fails}
use ink_node.Service.DevInherents.Slots.{create_dev_inherents-slot}
use ink_node.Cli.{Subcommand, BenchmarkCmd}
use ink_node.Command.Settings.{with_defaults}
use ink_node.Command.Node.{start_node}
use ink_node.Command.Run.{run_subcommand}
use ink_node.Command.RelayChain.{RelayRunCmd}
use ink_node.Command.Start.{start_schedule, start_node-Refines}
use ink_node.Command.Defaults.{IsSettled, with_defaults-IsSettled}
use ink_node.Command.Tools.{IsTool, run_subcommand-IsTool}
use ink_node.Tests.World.{test_sdk, test_env, test_config, test_cli, test_spec, test_head}

start_node-Refines_example :
    Refines test_env
      (start_node test_sdk test_cli 9 test_config)
      (start_schedule test_sdk test_cli test_config)
start_node-Refines_example = start_node-Refines test_sdk test_env test_cli 9 test_config

start_parachain_node-Refines_example :
    Refines test_env
      (start_parachain_node test_sdk test_config test_config 9 1000 (some 41))
      (parachain_schedule true true true true)
unfolding without_empty
start_parachain_node-Refines_example =
    start_parachain_node-Refines test_sdk test_env test_config test_config 9 1000 (some 41)

start_dev_parachain_node-Refines_example :
    Refines test_env
      (start_dev_parachain_node test_sdk test_config 1)
      (dev_parachain_schedule true true true)
unfolding without_empty
start_dev_parachain_node-Refines_example =
    start_dev_parachain_node-Refines test_sdk test_env test_config 1

new_full-Refines_example :
    Refines test_env (new_full test_sdk test_config 0) (development_schedule true true)
unfolding without_empty
new_full-Refines_example = new_full-Refines test_sdk test_env test_config 0

start_parachain_node-Wired_example :
    (w : Wires) × AllReplies
      (Wired w)
      test_env
      (run test_env [] (start_parachain_node test_sdk test_config test_config 9 1000 (some 41))).0
start_parachain_node-Wired_example =
    start_parachain_node-Wired test_sdk test_env test_config test_config 9 1000 (some 41)

instant_seal-Wired_example :
    ((w : Wires) × AllReplies
        (Wired w)
        test_env
        (run test_env [] (start_dev_parachain_node test_sdk test_config 1)).0)
    × ((w : Wires) × AllReplies
          (Wired w)
          test_env
          (run test_env [] (new_full test_sdk test_config 1)).0)
instant_seal-Wired_example = instant_seal-Wired test_sdk test_env test_config 1

start_dev_parachain_node-IsAlone_example :
    All IsAlone (run test_env [] (start_dev_parachain_node test_sdk test_config 1)).0
start_dev_parachain_node-IsAlone_example =
    start_dev_parachain_node-IsAlone test_sdk test_env test_config 1

create_dev_inherents-slot_example :
    let asked = Sdk.header 10 99 ∷ [] in
    (r : DevInherents) × ((run test_env [] (create_dev_inherents 10 1000 6000 99)).1 ≡ ok r)
    × (r.timestamp % 6000 ≡ 0)
    × (r.timestamp / 6000 ≡ 42)
    × (r.validation.current_para_block ≡ 42)
    × ((r.validation.upgrade_go_ahead ≡ some go_ahead) ↔ (
        (code : ℕ) × (test_env asked (Sdk.collect_collation_info 10 99 test_head)
          ≡ good (some code))))
create_dev_inherents-slot_example =
    create_dev_inherents-slot test_env [] 10 1000 6000 99 test_head refl (omega arith) (omega arith)
      (omega arith)

with_defaults-IsSettled_example :
    IsSettled test_cli.run (with_defaults test_cli).run
    × (with_defaults (with_defaults test_cli) ≡ with_defaults test_cli)
with_defaults-IsSettled_example = with_defaults-IsSettled test_cli

run_subcommand-IsTool_example :
    All IsTool
      (run test_env []
        (run_subcommand test_sdk true test_cli (Subcommand.benchmark 1 (BenchmarkCmd.storage 2)))).0
run_subcommand-IsTool_example =
    run_subcommand-IsTool test_sdk test_env true test_cli
      (Subcommand.benchmark 1 (BenchmarkCmd.storage 2))

abbrev no_base_path : ℕ → Fallible (Option String)
no_base_path n = good none

abbrev no_chain_id : ℕ → Bool → Fallible String
no_chain_id n is_dev = good ""

abbrev silent_relay_chain : RelayRunCmd
silent_relay_chain = record { base_path = no_base_path; chain_id = no_chain_id }

abbrev test_deps : FullDeps
test_deps = record { client = 10; pool = 32 }

abbrev orphan_config : Configuration
orphan_config = record test_config { chain_spec = record test_spec { extensions = none } }

start_node-fails_example : ¬ IsOk (run test_env [] (start_node test_sdk test_cli 9 orphan_config)).1
start_node-fails_example = start_node-fails test_sdk test_env test_cli 9 orphan_config refl refl

report_hardware-warned_example :
    let r = run test_env [] (report_hardware true 13 (some 31) (some 41)) in
    IsOk r.1
    × ((warned r.0 ≡ true) ↔ (
        (true ≡ true)
        × (e : String) × (test_env (Sdk.print_hwbench 41 ∷ []) (Sdk.check_hardware 41 false)
            ≡ bad e)))
report_hardware-warned_example = report_hardware-warned test_env true 13 (some 31) 41
