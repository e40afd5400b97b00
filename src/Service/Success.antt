-- ===== src/Service/Success.antt =====
-- The starts of a node with an SDK whose calls succeed.
use ink_node.Base.{
  ℕ, ◌≡◌, String, Bool, true, false, Option, none, some, good, bad, ltb, Bool-cases, inl, inr,
}
use ink_node.Sdk.{
  Sdk, Call, Client, TaskManager, Telemetry, TelemetryWorker, Configuration, HwBench, ParaId,
  RelayChain, CollatorKey, Endpoints, Registry, Overseer, Network, OffchainWorkerOptions,
}
use ink_node.Prog.{Rely}
use ink_node.Prog.Ends.{Ends, Ends-bind, Ends-or_fail, Ends-ok_or, IsGood, IsSome}
use ink_node.Service.Partial.{
  Service, without_empty, connect_telemetry, run_worker, new_partial, dev_new_partial,
}
use ink_node.Service.Offchain.{start_offchain_workers}
use ink_node.Service.Hardware.{report_hardware}
use ink_node.Service.Consensus.{start_collation, start_consensus}
use ink_node.Service.Parachain.{run_parachain_node, start_parachain_node}
use ink_node.Service.DevParachain.{run_dev_parachain_node, start_dev_parachain_node, finalize_later}
use ink_node.Service.Development.{run_new_full, new_full}

-- Every call that can end a start succeeds, and joining the relay chain gives the collator's key.
abbrev pub Succeeds : Rely
Succeeds (Call.telemetry_worker _) r = IsGood r
Succeeds (Call.full_parts_record_import _ _ _ _) r = IsGood r
Succeeds (Call.full_parts _ _ _) r = IsGood r
Succeeds (Call.spawn_tasks _) r = IsGood r
Succeeds (Call.relay_chain_interface _ _ _ _ _ _) r =
    (relay : RelayChain) × (key : CollatorKey) × (r ≡ good (relay, some key))
Succeeds (Call.network _) r = IsGood r
Succeeds (Call.solo_network _) r = IsGood r
Succeeds (Call.offchain_workers _) r = IsGood r
Succeeds (Call.overseer_handle _) r = IsGood r
Succeeds (Call.relay_chain_tasks _) r = IsGood r
Succeeds (Call.slot_duration _) r = IsGood r
Succeeds (Call.create_runner _) r = IsGood r
Succeeds (Call.relay_configuration _ _) r = IsGood r
Succeeds (Call.run_until_exit _) r = IsGood r
Succeeds _ r = Unit

connect_telemetry-Ends :
    (e : Option Endpoints) → Ends Succeeds (λ _. Unit {0}) (connect_telemetry e)
unfolding connect_telemetry
connect_telemetry-Ends none = tt
connect_telemetry-Ends (some e) = Ends-or_fail _ _ _ _ λ worker. λ _ _. tt

run_worker-Ends :
    (tm : TaskManager) (o : Option (TelemetryWorker × Telemetry))
    → Ends Succeeds (λ _. Unit {0}) (run_worker tm o)
unfolding run_worker
run_worker-Ends tm none = tt
run_worker-Ends tm (some o) = λ _ _. tt

start_offchain_workers-Ends :
    (enabled : Bool) (tm : TaskManager) (client : Client) (group : Option String)
    (options : OffchainWorkerOptions)
    → Ends Succeeds (λ _. Unit {0}) (start_offchain_workers enabled tm client group options)
unfolding start_offchain_workers
start_offchain_workers-Ends false tm client group options = tt
start_offchain_workers-Ends true tm client group options = Ends-or_fail _ _ _ _ λ workers. λ _ _. tt

report_hardware-Ends :
    (validator : Bool) (tm : TaskManager) (t : Option Telemetry) (hw : Option HwBench)
    → Ends Succeeds (λ _. Unit {0}) (report_hardware validator tm t hw)
unfolding report_hardware
report_hardware-Ends validator tm t none = tt
report_hardware-Ends false tm none (some hw) = λ _ _. elim [ good _ ↦ λ _. tt | bad _ ↦ λ _. tt ]
report_hardware-Ends true tm none (some hw) = λ _ _. elim [ good _ ↦ λ _. tt | bad _ ↦ λ _ _ _. tt ]
report_hardware-Ends false tm (some t) (some hw) =
    λ _ _. elim [ good _ ↦ λ _ _ _. tt | bad _ ↦ λ _ _ _. tt ]
report_hardware-Ends true tm (some t) (some hw) =
    λ _ _. elim [ good _ ↦ λ _ _ _. tt | bad _ ↦ λ _ _ _ _ _. tt ]

start_collation-Ends :
    (validator : Bool) (params : Service) (registry : Option Registry) (relay : RelayChain) (d : ℕ)
    (para_id : ParaId) (key : CollatorKey) (overseer : Overseer) (network : Network)
    → Ends Succeeds
        (λ _. Unit {0})
        (start_collation validator params registry relay d para_id (some key) overseer network)
unfolding start_collation start_consensus
start_collation-Ends false params registry relay d para_id key overseer network = tt
start_collation-Ends true params registry relay d para_id key overseer network = λ _ _ _ _. tt

finalize_later-Ends :
    (delay : ℕ) (client : Client) (tm : TaskManager)
    → Ends Succeeds (λ _. Unit {0}) (finalize_later delay client tm)
unfolding finalize_later
finalize_later-Ends delay client tm = elim (Bool-cases (ltb 0 delay)) [
  | inl later ↦ rw (later, finalize_later) (λ _ _. tt)
  | inr never ↦ rw (never, finalize_later) tt
]

module _ (sdk : Sdk) where
  pub new_partial-Ends : (c : Configuration) → Ends Succeeds (λ _. Unit {0}) (new_partial sdk c)
  unfolding new_partial
  new_partial-Ends c =
      Ends-bind Succeeds (λ _. Unit {0}) _ _ _
        (connect_telemetry-Ends (without_empty c.telemetry_endpoints))
        λ o _. Ends-or_fail _ _ _ _ λ parts.
          Ends-bind Succeeds (λ _. Unit {0}) _ _ _ (run_worker-Ends parts.task_manager o)
            λ t _. λ pool _ import _ queue _. tt

  dev_new_partial-Ends : (c : Configuration) → Ends Succeeds (λ _. Unit {0}) (dev_new_partial sdk c)
  unfolding dev_new_partial
  dev_new_partial-Ends c =
      Ends-bind Succeeds (λ _. Unit {0}) _ _ _
        (connect_telemetry-Ends (without_empty c.telemetry_endpoints))
        λ o _. Ends-or_fail _ _ _ _ λ parts.
          Ends-bind Succeeds (λ _. Unit {0}) _ _ _ (run_worker-Ends parts.task_manager o)
            λ t _. λ queue _ pool _. tt

  run_parachain_node-Ends :
      (c : Configuration) (para_id : ParaId) (hw : Option HwBench) (params : Service)
      (relay : RelayChain) (key : CollatorKey)
      → Ends Succeeds (λ _. Unit {0}) (run_parachain_node sdk c para_id hw params relay (some key))
  unfolding run_parachain_node
  run_parachain_node-Ends c para_id hw params relay key = Ends-or_fail _ _ _ _ λ network.
      Ends-bind Succeeds (λ _. Unit {0}) _ _ _
        (start_offchain_workers-Ends c.offchain_worker _ _ _ _)
        λ _ _. Ends-or_fail _ _ _ _ λ _.
          Ends-bind Succeeds (λ _. Unit {0}) _ _ _ (report_hardware-Ends _ _ params.other.1 hw)
            λ _ _. Ends-or_fail _ _ _ _ λ overseer. Ends-or_fail _ _ _ _ λ _.
              Ends-bind Succeeds (λ _. Unit {0}) _ _ _
                (start_collation-Ends (sdk.is_authority c.role) params _ relay 6000 para_id key
                  overseer network)
                λ _ _. tt

  pub start_parachain_node-Ends :
      (config polkadot_config : Configuration) (options : ℕ) (para_id : ParaId)
      (hw : Option HwBench)
      → Ends Succeeds
          (λ _. Unit {0})
          (start_parachain_node sdk config polkadot_config options para_id hw)
  unfolding start_parachain_node
  start_parachain_node-Ends config polkadot_config options para_id hw =
      let c = sdk.prepare_node_config config in
      Ends-bind Succeeds (λ _. Unit {0}) (λ _. Unit {0}) _ _ (new_partial-Ends c)
        λ params _.
          λ r joined. rw joined.2 (run_parachain_node-Ends c para_id hw params joined.0 joined.1)

  pub start_dev_parachain_node-Ends :
      (config : Configuration) (delay : ℕ)
      → IsSome (sdk.get_extension config.chain_spec.extensions)
      → Ends Succeeds (λ _. Unit {0}) (start_dev_parachain_node sdk config delay)
  unfolding start_dev_parachain_node run_dev_parachain_node
  start_dev_parachain_node-Ends config delay known =
      Ends-bind Succeeds (λ _. Unit {0}) _ _ _
        (connect_telemetry-Ends (without_empty config.telemetry_endpoints))
        λ o _. Ends-or_fail _ _ _ _ λ parts.
          Ends-bind Succeeds (λ _. Unit {0}) _ _ _ (run_worker-Ends parts.task_manager o)
            λ t _. λ pool _ queue _. Ends-or_fail _ _ _ _ λ network.
              Ends-bind Succeeds (λ _. Unit {0}) _ _ _
                (start_offchain_workers-Ends config.offchain_worker _ _ _ _)
                λ _ _. λ proposer _. elim [
                  | bad _ ↦ λ g. absurd g
                  | good d ↦ λ _.
                      Ends-ok_or _ _ _ _
                        (λ ext. λ _ _.
                          Ends-bind Succeeds (λ _. Unit {0}) _ _ _ (finalize_later-Ends delay _ _)
                            λ _ _. Ends-or_fail _ _ _ _ λ _. tt)
                        (sdk.get_extension config.chain_spec.extensions) known
                ]

  pub new_full-Ends :
      (config : Configuration) (delay : ℕ)
      → Ends Succeeds (λ _. Unit {0}) (new_full sdk config delay)
  unfolding new_full run_new_full
  new_full-Ends config delay =
      Ends-bind Succeeds (λ _. Unit {0}) _ _ _ (dev_new_partial-Ends config)
        λ params _. Ends-or_fail _ _ _ _ λ network.
          Ends-bind Succeeds (λ _. Unit {0}) _ _ _
            (start_offchain_workers-Ends config.offchain_worker _ _ _ _)
            λ _ _. Ends-or_fail _ _ _ _ λ _. λ proposer _ _ _ _ _ _ _. tt
