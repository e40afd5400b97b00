-- ===== src/Service/Wiring/Parachain.antt =====
-- The parts that a parachain node's start names, from the network on.
use ink_node.Base.{ℕ, refl, Bool, true, false, Option, none, some, good, bad}
use ink_node.Sdk.{
  Sdk, Telemetry, Configuration, HwBench, ParaId, RelayChain, CollatorKey, Registry, Overseer,
  Network,
}
use ink_node.Prog.Always.{Always, Always-bind, Always-or_fail}
use ink_node.Service.Partial.{Service}
use ink_node.Service.Consensus.{start_consensus, start_collation}
use ink_node.Service.Hardware.{report_hardware}
use ink_node.Service.Parachain.{run_parachain_node}
use ink_node.Service.Wiring.Parts.{Wires, Names}
use ink_node.Service.Wiring.Offchain.{wires_of, start_offchain_workers-Always}

report_hardware-Always :
    (w : Wires) (validator : Bool) (t : Option Telemetry) (hw : Option HwBench)
    → Always (Names w) (report_hardware validator w.task_manager t hw)
unfolding report_hardware
report_hardware-Always w validator t none = tt
report_hardware-Always w false none (some hw) = (tt, λ _. (tt, elim [ good _ ↦ tt | bad _ ↦ tt ]))
report_hardware-Always w true none (some hw) =
    (tt, λ _. (tt, elim [ good _ ↦ tt | bad _ ↦ (tt, λ _. tt) ]))
report_hardware-Always w false (some t) (some hw) =
    (tt, λ _. (tt, elim [ good _ ↦ ((refl, tt), λ _. tt) | bad _ ↦ ((refl, tt), λ _. tt) ]))
report_hardware-Always w true (some t) (some hw) = (
  tt,
  λ _. (tt, elim [ good _ ↦ ((refl, tt), λ _. tt) | bad _ ↦ (tt, λ _. ((refl, tt), λ _. tt)) ]),
)

start_collation-Always :
    (validator : Bool) (params : Service) (registry : Option Registry) (relay : RelayChain) (d : ℕ)
    (para_id : ParaId) (key : Option CollatorKey) (overseer : Overseer) (network : Network)
    → Always
        (Names (wires_of params))
        (start_collation validator params registry relay d para_id key overseer network)
unfolding start_collation start_consensus
start_collation-Always false params registry relay d para_id key overseer network = tt
start_collation-Always true params registry relay d para_id none overseer network = tt
start_collation-Always true params registry relay d para_id (some key) overseer network =
    ((refl, refl, refl), λ p. ((refl, (refl, refl, refl, refl, refl, refl, refl)), λ _. tt))

module _ (sdk : Sdk) where
  pub run_parachain_node-Always :
      (c : Configuration) (para_id : ParaId) (hw : Option HwBench) (params : Service)
      (relay : RelayChain) (key : Option CollatorKey)
      → Always (Names (wires_of params)) (run_parachain_node sdk c para_id hw params relay key)
  unfolding run_parachain_node
  run_parachain_node-Always c para_id hw params relay key = (
    (refl, refl, refl),
    Always-or_fail _ _ _ λ network.
        Always-bind _ _ _
          (start_offchain_workers-Always (wires_of params) c.offchain_worker _ _
            (refl, refl, refl, refl))
          λ _. (
            (refl, refl, refl, refl, refl, refl, refl),
            Always-or_fail _ _ _ λ _.
                Always-bind _ _ _ (report_hardware-Always (wires_of params) _ params.other.1 hw)
                  λ _. (
                    tt,
                    Always-or_fail _ _ _ λ overseer. (
                      (refl, refl),
                      Always-or_fail _ _ _ λ _.
                          Always-bind _ _ _
                            (start_collation-Always (sdk.is_authority c.role) params _ relay 6000
                              para_id key overseer network)
                            λ _. tt,
                    ),
                  ),
          ),
  )
