-- ===== src/Service/Follow.antt =====
-- The parts that every start shares, and their schedules.
use ink_node.Base.{String, Bool, true, false, Option, none, some, ◌≡◌, refl, is_some}
use ink_node.Sdk.{
  Sdk, Client, TaskManager, Telemetry, TelemetryWorker, Endpoints, Configuration,
  OffchainWorkerOptions,
}
use ink_node.Prog.Trace.{Follows, Follows-bind, Follows-or_fail}
use ink_node.Service.Partial.{Service, without_empty, connect_telemetry, run_worker, new_partial}
use ink_node.Service.Offchain.{start_offchain_workers}
use ink_node.Service.Schedule.{offchain, connecting, reporting, partial_schedule}

pub connect_telemetry-Follows :
    (e : Option Endpoints)
    → Follows (λ o. is_some o ≡ is_some e) (connecting (is_some e)) (connect_telemetry e)
unfolding connect_telemetry
connect_telemetry-Follows none = (refl, refl)
connect_telemetry-Follows (some e) =
    (refl, Follows-or_fail _ _ _ _ λ worker. (refl, λ telemetry. (refl, refl)))

pub run_worker-Follows :
    (tm : TaskManager) (o : Option (TelemetryWorker × Telemetry))
    → Follows (λ t. is_some t ≡ is_some o) (reporting (is_some o)) (run_worker tm o)
unfolding run_worker
run_worker-Follows tm none = (refl, refl)
run_worker-Follows tm (some (w, t)) = (refl, λ _. (refl, refl))

pub new_partial-Follows :
    (sdk : Sdk) (config : Configuration)
    → let telemetry = is_some (without_empty config.telemetry_endpoints) in
      Follows
        (λ (s : Service). is_some s.other.1 ≡ telemetry)
        (partial_schedule telemetry)
        (new_partial sdk config)
unfolding new_partial
new_partial-Follows sdk config =
    Follows-bind _ _ _ _ _ _ (connect_telemetry-Follows (without_empty config.telemetry_endpoints))
      λ o e. (
        refl,
        Follows-or_fail _ _ _ _ λ parts. rw (← e) (
            Follows-bind _ _ _ _ _ _ (run_worker-Follows parts.task_manager o)
              λ t e'. (refl, λ pool. (refl, λ import. (refl, λ queue. (refl, e'))))),
      )

pub start_offchain_workers-Follows :
    (enabled : Bool) (tm : TaskManager) (client : Client) (group : Option String)
    (options : OffchainWorkerOptions)
    → Follows
        (λ _. Unit {0})
        (offchain enabled)
        (start_offchain_workers enabled tm client group options)
unfolding start_offchain_workers
start_offchain_workers-Follows false tm client group options = (refl, tt)
start_offchain_workers-Follows true tm client group options =
    (refl, Follows-or_fail _ _ _ _ λ workers. (refl, λ _. (refl, tt)))
