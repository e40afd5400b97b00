-- ===== src/Service/Start/Parachain.antt =====
-- `start_parachain_node` and its schedule.
use ink_node.Base.{ℕ, Bool, true, false, Option, none, some, refl, is_some, good, bad}
use ink_node.Sdk.{
  Sdk, TaskManager, Telemetry, Configuration, HwBench, ParaId, RelayChain, CollatorKey, Registry,
  Overseer, Network,
}
use ink_node.Prog.{Env}
use ink_node.Prog.Trace.{
  Follows, Follows-bind, Follows-or_fail, Refines, Follows-Refines, Follows-last,
}
use ink_node.Service.Partial.{Service, without_empty}
use ink_node.Service.Consensus.{start_consensus, start_collation}
use ink_node.Service.Hardware.{report_hardware}
use ink_node.Service.Parachain.{run_parachain_node, start_parachain_node}
use ink_node.Service.Schedule.{hardware, collation, node_schedule, parachain_schedule}
use ink_node.Service.Follow.{new_partial-Follows, start_offchain_workers-Follows}

report_hardware-Follows :
    (validator : Bool) (tm : TaskManager) (t : Option Telemetry) (hw : Option HwBench)
    → Follows
        (λ _. Unit {0})
        (hardware (is_some t) (is_some hw))
        (report_hardware validator tm t hw)
unfolding report_hardware
report_hardware-Follows validator tm none none = (refl, tt)
report_hardware-Follows validator tm (some t) none = (refl, tt)
report_hardware-Follows false tm none (some hw) =
    (refl, λ _. (refl, elim [ good _ ↦ (refl, tt) | bad _ ↦ (refl, tt) ]))
report_hardware-Follows true tm none (some hw) =
    (refl, λ _. (refl, elim [ good _ ↦ (refl, tt) | bad _ ↦ λ _. (refl, tt) ]))
report_hardware-Follows false tm (some t) (some hw) =
    (refl, λ _. (refl, elim [ good _ ↦ (refl, λ _. (refl, tt)) | bad _ ↦ (refl, λ _. (refl, tt)) ]))
report_hardware-Follows true tm (some t) (some hw) = (
  refl,
  λ _. (refl, elim [ good _ ↦ (refl, λ _. (refl, tt)) | bad _ ↦ λ _. (refl, λ _. (refl, tt)) ]),
)

start_collation-Follows :
    (validator : Bool) (params : Service) (registry : Option Registry) (relay : RelayChain) (d : ℕ)
    (para_id : ParaId) (key : Option CollatorKey) (overseer : Overseer) (network : Network)
    → Follows
        (λ _. Unit {0})
        (collation validator)
        (start_collation validator params registry relay d para_id key overseer network)
unfolding start_collation start_consensus
start_collation-Follows false params registry relay d para_id key overseer network = (refl, tt)
start_collation-Follows true params registry relay d para_id none overseer network = tt
start_collation-Follows true params registry relay d para_id (some key) overseer network =
    (refl, λ proposer. (refl, λ _. (refl, tt)))

module _ (sdk : Sdk) where
  run_parachain_node-Follows :
      (c : Configuration) (para_id : ParaId) (hw : Option HwBench) (params : Service)
      (relay : RelayChain) (key : Option CollatorKey)
      → Follows
          (λ _. Unit {0})
          (node_schedule
            (is_some params.other.1)
            c.offchain_worker
            (is_some hw)
            (sdk.is_authority c.role))
          (run_parachain_node sdk c para_id hw params relay key)
  unfolding run_parachain_node
  run_parachain_node-Follows c para_id hw params relay key = (
    refl,
    Follows-or_fail _ _ _ _ λ network.
        Follows-bind _ _ _ _ _ _ (start_offchain_workers-Follows c.offchain_worker _ _ _ _) λ _ _. (
          refl,
          Follows-or_fail _ _ _ _ λ _.
              Follows-bind _ _ _ _ _ _ (report_hardware-Follows _ _ params.other.1 hw) λ _ _. (
                refl,
                Follows-or_fail _ _ _ _ λ overseer. (
                  refl,
                  Follows-or_fail _ _ _ _ λ _.
                      Follows-last _ _ _ _ _
                        (start_collation-Follows (sdk.is_authority c.role) params _ relay 6000
                          para_id key overseer network)
                        λ _ _. (refl, tt),
                ),
              ),
        ),
  )

  pub start_parachain_node-Follows :
      (config polkadot_config : Configuration) (options : ℕ) (para_id : ParaId)
      (hw : Option HwBench)
      → let c = sdk.prepare_node_config config in
        Follows
          (λ _. Unit {0})
          (parachain_schedule
            (is_some (without_empty c.telemetry_endpoints))
            c.offchain_worker
            (is_some hw)
            (sdk.is_authority c.role))
          (start_parachain_node sdk config polkadot_config options para_id hw)
  unfolding start_parachain_node
  start_parachain_node-Follows config polkadot_config options para_id hw =
      let c = sdk.prepare_node_config config in
      Follows-bind _ _ _ _ _ _ (new_partial-Follows sdk c) λ params e. (
        refl,
        Follows-or_fail _ _ _ _
            λ relay. rw (← e) (run_parachain_node-Follows c para_id hw params relay.0 relay.1),
      )

  -- The start of a parachain node takes the steps of `parachain_schedule`, for the endpoints, the
  -- offchain workers and the role of the prepared configuration and for a benchmark that was
  -- made, in that order; it stops early only by an error or a panic, and ends well only after all
  -- of them. So a start that ends well has started to collate exactly if the role is an
  -- authority's, after the relay chain's tasks.
  pub start_parachain_node-Refines :
      (env : Env) (config polkadot_config : Configuration) (options : ℕ) (para_id : ParaId)
      (hw : Option HwBench)
      → let c = sdk.prepare_node_config config in
        Refines env (start_parachain_node sdk config polkadot_config options para_id hw) (
          parachain_schedule
            (is_some (without_empty c.telemetry_endpoints))
            c.offchain_worker
            (is_some hw)
            (sdk.is_authority c.role))
  start_parachain_node-Refines env config polkadot_config options para_id hw =
      Follows-Refines _ env _ _
        (start_parachain_node-Follows config polkadot_config options para_id hw)
