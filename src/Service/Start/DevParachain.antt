-- ===== src/Service/Start/DevParachain.antt =====
-- `start_dev_parachain_node` and its schedule.
use ink_node.Base.{ℕ, Option, refl, is_some, good, bad, ltb, Bool-cases, inl, inr}
use ink_node.Sdk.{Sdk, TaskManager, Telemetry, TransactionPool, Configuration, Parts, Client}
use ink_node.Prog.{Env}
use ink_node.Prog.Trace.{
  Follows, Follows-bind, Follows-or_fail, Follows-ok_or, Refines, Follows-Refines,
}
use ink_node.Service.Partial.{without_empty}
use ink_node.Service.DevParachain.{
  finalize_later, run_dev_parachain_node, start_dev_parachain_node, without_peers,
}
use ink_node.Service.Schedule.{finalizing, dev_node_schedule, dev_parachain_schedule}
use ink_node.Service.Follow.{
  connect_telemetry-Follows, run_worker-Follows, start_offchain_workers-Follows,
}

finalize_later-Follows :
    (delay : ℕ) (client : Client) (tm : TaskManager)
    → Follows (λ _. Unit {0}) (finalizing (ltb 0 delay)) (finalize_later delay client tm)
unfolding finalize_later
finalize_later-Follows delay client tm = elim (Bool-cases (ltb 0 delay)) [
  | inl later ↦ rw (later, finalize_later) (refl, λ _. (refl, tt))
  | inr never ↦ rw (never, finalize_later) (refl, tt)
]

module _ (sdk : Sdk) where
  run_dev_parachain_node-Follows :
      (c : Configuration) (delay : ℕ) (parts : Parts) (t : Option Telemetry)
      (pool : TransactionPool)
      → Follows
          (λ _. Unit {0})
          (dev_node_schedule c.offchain_worker (ltb 0 delay))
          (run_dev_parachain_node sdk c delay parts t pool)
  unfolding run_dev_parachain_node
  run_dev_parachain_node-Follows c delay parts t pool = (
    refl,
    λ queue. (
      refl,
      Follows-or_fail _ _ _ _ λ network.
          Follows-bind _ _ _ _ _ _ (start_offchain_workers-Follows c.offchain_worker _ _ _ _) λ _ _.
            (
              refl,
              λ proposer. (
                refl,
                elim [
                  | bad _ ↦ tt
                  | good d ↦
                      Follows-ok_or _ _ _ _
                        (λ ext. (
                          refl,
                          λ _.
                              Follows-bind _ _ _ _ _ _ (finalize_later-Follows delay _ _)
                                λ _ _. (refl, Follows-or_fail _ _ _ _ λ _. (refl, tt)),
                        ))
                        (sdk.get_extension c.chain_spec.extensions)
                ],
              ),
            ),
    ),
  )

  pub start_dev_parachain_node-Follows :
      (config : Configuration) (delay : ℕ)
      → Follows
          (λ _. Unit {0})
          (dev_parachain_schedule
            (is_some (without_empty config.telemetry_endpoints))
            config.offchain_worker
            (ltb 0 delay))
          (start_dev_parachain_node sdk config delay)
  unfolding start_dev_parachain_node
  start_dev_parachain_node-Follows config delay =
      Follows-bind _ _ _ _ _ _
        (connect_telemetry-Follows (without_empty config.telemetry_endpoints))
        λ o e. (
          refl,
          Follows-or_fail _ _ _ _ λ parts. rw (← e) (
              Follows-bind _ _ _ _ _ _ (run_worker-Follows parts.task_manager o) λ t _. (
                refl,
                λ pool. run_dev_parachain_node-Follows (without_peers config) delay parts t pool,
              )),
        )

  -- The start of a parachain with instant seal takes the steps of `dev_parachain_schedule`, for
  -- the endpoints, the offchain workers and the delay that it is given, in that order; it stops
  -- early only by an error or a panic, and ends well only after all of them. So a start that ends
  -- well runs a task that finalizes blocks exactly if the delay is positive.
  pub start_dev_parachain_node-Refines :
      (env : Env) (config : Configuration) (delay : ℕ)
      → Refines env (start_dev_parachain_node sdk config delay) (
          dev_parachain_schedule
            (is_some (without_empty config.telemetry_endpoints))
            config.offchain_worker
            (ltb 0 delay))
  start_dev_parachain_node-Refines env config delay =
      Follows-Refines _ env _ _ (start_dev_parachain_node-Follows config delay)
