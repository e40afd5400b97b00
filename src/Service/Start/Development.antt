-- ===== src/Service/Start/Development.antt =====
-- `dev::new_full` and its schedule.
use ink_node.Base.{ℕ, refl, is_some}
use ink_node.Sdk.{Sdk, Configuration}
use ink_node.Prog.{Env}
use ink_node.Prog.Trace.{Follows, Follows-bind, Follows-or_fail, Refines, Follows-Refines}
use ink_node.Service.Partial.{without_empty, dev_new_partial}
use ink_node.Service.Development.{new_full}
use ink_node.Service.Schedule.{dev_partial_schedule, development_schedule}
use ink_node.Service.Follow.{
  connect_telemetry-Follows, run_worker-Follows, start_offchain_workers-Follows,
}

module _ (sdk : Sdk) where
  dev_new_partial-Follows :
      (config : Configuration)
      → Follows
          (λ _. Unit {0})
          (dev_partial_schedule (is_some (without_empty config.telemetry_endpoints)))
          (dev_new_partial sdk config)
  unfolding dev_new_partial
  dev_new_partial-Follows config =
      Follows-bind _ _ _ _ _ _
        (connect_telemetry-Follows (without_empty config.telemetry_endpoints))
        λ o e. (
          refl,
          Follows-or_fail _ _ _ _ λ parts. rw (← e) (
              Follows-bind _ _ _ _ _ _ (run_worker-Follows parts.task_manager o)
                λ t _. (refl, λ queue. (refl, λ pool. (refl, tt)))),
        )

  pub new_full-Follows :
      (config : Configuration) (delay : ℕ)
      → Follows
          (λ _. Unit {0})
          (development_schedule
            (is_some (without_empty config.telemetry_endpoints))
            config.offchain_worker)
          (new_full sdk config delay)
  unfolding new_full
  new_full-Follows config delay =
      Follows-bind _ _ _ _ _ _ (dev_new_partial-Follows config) λ params _. (
        refl,
        Follows-or_fail _ _ _ _ λ network.
            Follows-bind _ _ _ _ _ _ (start_offchain_workers-Follows config.offchain_worker _ _ _ _)
              λ _ _. (
                refl,
                Follows-or_fail _ _ _ _
                    λ _. (refl, λ proposer. (refl, λ _. (refl, λ _. (refl, λ _. (refl, tt))))),
              ),
      )

  -- The start of the development chain takes the steps of `development_schedule`, for the
  -- endpoints and the offchain workers of its configuration, in that order; it stops early only
  -- by an error or a panic, and ends well only after all of them. So instant seal never starts
  -- before the first block is sealed, and a start that ends well runs a task that finalizes
  -- blocks, whatever the delay is.
  pub new_full-Refines :
      (env : Env) (config : Configuration) (delay : ℕ)
      → Refines env (new_full sdk config delay) (
          development_schedule
            (is_some (without_empty config.telemetry_endpoints))
            config.offchain_worker)
  new_full-Refines env config delay = Follows-Refines _ env _ _ (new_full-Follows config delay)
