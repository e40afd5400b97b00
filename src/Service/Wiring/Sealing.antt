-- ===== src/Service/Wiring/Sealing.antt =====
-- The parts that the starts of the nodes with instant seal name, from the network on.
use ink_node.Base.{ℕ, ◌≡◌, refl, inl, inr, Bool-cases, Option, good, bad, ltb}
use ink_node.Sdk.{Sdk, Telemetry, TransactionPool, Configuration, Parts}
use ink_node.Prog.Always.{Always, Always-bind, Always-or_fail, Always-ok_or}
use ink_node.Service.Partial.{DevService}
use ink_node.Service.DevParachain.{run_dev_parachain_node, finalize_later}
use ink_node.Service.Development.{run_new_full}
use ink_node.Service.Wiring.Parts.{Wires, Names}
use ink_node.Service.Wiring.Offchain.{wires_of, wires, start_offchain_workers-Always}

finalize_later-Always :
    (w : Wires) (delay : ℕ) → Always (Names w) (finalize_later delay w.client w.task_manager)
unfolding finalize_later
finalize_later-Always w delay = elim (Bool-cases (ltb 0 delay)) [
  | inl later ↦ rw (later, finalize_later) ((refl, (refl, refl)), λ _. tt)
  | inr never ↦ rw (never, finalize_later) tt
]

module _ (sdk : Sdk) where
  pub run_dev_parachain_node-Always :
      (c : Configuration) (delay : ℕ) (parts : Parts) (t : Option Telemetry)
      (pool : TransactionPool)
      → Always (Names (wires parts pool)) (run_dev_parachain_node sdk c delay parts t pool)
  unfolding run_dev_parachain_node
  run_dev_parachain_node-Always c delay parts t pool = (
    (refl, refl),
    λ queue. (
      (refl, refl, refl),
      Always-or_fail _ _ _ λ network.
          Always-bind _ _ _
            (start_offchain_workers-Always (wires parts pool) c.offchain_worker _ _
              (refl, refl, refl, refl))
            λ _. (
              (refl, refl, refl),
              λ proposer. (
                refl,
                elim [
                  | bad _ ↦ tt
                  | good d ↦
                      Always-ok_or _ _ _
                        (λ ext. (
                          (refl, (refl, refl, refl, refl, (refl, refl))),
                          λ _.
                              Always-bind _ _ _ (finalize_later-Always (wires parts pool) delay)
                                λ _. (
                                  (refl, refl, refl, refl, refl, refl, refl),
                                  Always-or_fail _ _ _ λ _. tt,
                                ),
                        ))
                        (sdk.get_extension c.chain_spec.extensions)
                ],
              ),
            ),
    ),
  )

  pub run_new_full-Always :
      (c : Configuration) (delay : ℕ) (params : DevService)
      → params.select_chain ≡ params.backend
      → Always (Names (wires_of params)) (run_new_full sdk c delay params)
  unfolding run_new_full
  run_new_full-Always c delay params chain = (
    (refl, refl, refl),
    Always-or_fail _ _ _ λ network.
        Always-bind _ _ _
          (start_offchain_workers-Always (wires_of params) c.offchain_worker _ _
            (refl, refl, refl, refl))
          λ _. (
            (refl, refl, refl, refl, refl, refl, refl),
            Always-or_fail _ _ _ λ _. (
              (refl, refl, refl),
              λ proposer. (
                (chain, refl, refl, refl, tt),
                λ _. ((refl, (refl, refl, refl, chain, tt)), λ _. ((refl, (refl, refl)), λ _. tt)),
              ),
            ),
          ),
  )
