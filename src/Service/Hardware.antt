-- ===== src/Service/Hardware.antt =====
-- node/src/service.rs: what a parachain node does with a hardware benchmark.
use ink_node.Base.{Bool, true, false, Option, none, some, Fallible, good, bad}
use ink_node.Sdk.{TaskManager, Telemetry, HwBench, initialize_hwbench_telemetry}
use ink_node.Sdk
use ink_node.Prog.{Prog, ret, ask, ◌>>=◌, ◌>>◌}
use ink_node.Service.Errors.{ServiceError}

-- `Err(err) if validator => log::warn!(…)`.
unfoldable pub warn_hardware : Bool → Fallible (Unit {0}) → Prog ServiceError (Unit {0})
warn_hardware validator (good _) = ret tt
warn_hardware false (bad e) = ret tt
warn_hardware true (bad e) = ask (Sdk.warn e)

-- `if let Some(ref mut telemetry) = telemetry { … }`.
unfoldable pub send_hwbench :
    TaskManager → Option Telemetry → HwBench → Prog ServiceError (Unit {0})
send_hwbench task_manager none hwbench = ret tt
send_hwbench task_manager (some telemetry) hwbench = ask (
    Sdk.spawn (record {
      task_manager = task_manager;
      essential = false;
      blocking = false;
      name = "telemetry_hwbench";
      group = none;
      task = initialize_hwbench_telemetry telemetry hwbench;
    }))

-- `if let Some(hwbench) = hwbench { … }`.
unfoldable pub report_hardware :
    Bool → TaskManager → Option Telemetry → Option HwBench → Prog ServiceError (Unit {0})
unfolding warn_hardware send_hwbench
report_hardware validator task_manager telemetry none = ret tt
report_hardware validator task_manager telemetry (some hwbench) = do
  ask (Sdk.print_hwbench hwbench)
  meets ← ask (Sdk.check_hardware hwbench false)
  warn_hardware validator meets
  send_hwbench task_manager telemetry hwbench
