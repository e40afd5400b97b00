-- ===== src/Service/Wiring/Starts.antt =====
-- Each start as a whole: the parts that its calls name, which are the ones that it built.
use ink_node.Base.{ℕ, ◌≡◌, refl, ap, sym, subst, Option, none, some, [], Fallible, good, bad}
use ink_node.Sdk.{
  Sdk, Reply, Parts, TransactionPool, TaskManager, Telemetry, TelemetryWorker, Endpoints,
  Configuration, HwBench, ParaId,
}
use ink_node.Prog.{Prog, Env, run, ◌>>=◌}
use ink_node.Prog.Always.{Always, Always-or_fail}
use ink_node.Prog.Settles.{
  AllReplies, Settles, Settles-run, Settles-bind, bind_assoc, Always-Settles,
}
use ink_node.Service.Partial.{
  Service, DevService, connect_telemetry, run_worker, new_partial, dev_new_partial,
}
use ink_node.Service.Parachain.{start_parachain_node}
use ink_node.Service.DevParachain.{run_dev_parachain_node, start_dev_parachain_node, without_peers}
use ink_node.Service.Development.{new_full}
use ink_node.Service.Wiring.Parts.{Wires, IsOf, Names, Wired, Names-Wired}
use ink_node.Service.Wiring.Offchain.{wires_of, wires}
use ink_node.Service.Wiring.Parachain.{run_parachain_node-Always}
use ink_node.Service.Wiring.Sealing.{run_dev_parachain_node-Always, run_new_full-Always}

-- Where the parts could not be built, nothing names them.
abbrev unbuilt : Wires
unbuilt = record { client = 0; backend = 0; keystore = 0; pool = 0; task_manager = 0 }

-- The rest of a start, once its parts are known.
settled :
    {E A : Type 0} (S : Wires → Type 0) (w : Wires) (m : Prog E A)
    → S w
    → Always (Names w) m
    → Settles Wired S m
settled S w m = Always-Settles Wired S (Names w) w m (Names-Wired w)

-- Parts that were built are those of the node that is wired to them.
abbrev Built : Fallible Parts → Wires → Type 0
Built r w = (q : Parts) → r ≡ good q → IsOf w q

built : (p : Parts) (pool : TransactionPool) → Built (good p) (wires p pool)
built p pool q e =
    let same : q ≡ p = cc in
    (
      ap (λ (x : Parts). x.client) same,
      ap (λ (x : Parts). x.backend) same,
      ap (λ (x : Parts). x.keystore_container) same,
      ap (λ (x : Parts). x.task_manager) same,
    )

connect_telemetry-suits :
    (S : Wires → Type 0) (e : Option Endpoints)
    → Always (λ c. (w : Wires) (r : Reply c) → S w → Wired w c r) (connect_telemetry e)
unfolding connect_telemetry
connect_telemetry-suits S none = tt
connect_telemetry-suits S (some e) =
    (λ w r s. tt, Always-or_fail _ _ _ λ worker. (λ w r s. tt, λ _. tt))

run_worker-suits :
    (S : Wires → Type 0) (tm : TaskManager) (o : Option (TelemetryWorker × Telemetry))
    → ((w : Wires) → S w → tm ≡ w.task_manager)
    → Always (λ c. (w : Wires) (r : Reply c) → S w → Wired w c r) (run_worker tm o)
unfolding run_worker
run_worker-suits S tm none e = tt
run_worker-suits S tm (some o) e = (λ w r s. (e w s, tt), λ _. tt)

module _ (sdk : Sdk) where
  -- From the telemetry's worker on, once the parts are built.
  worker-Settles :
      {A : Type 0} (p : Parts) (o : Option (TelemetryWorker × Telemetry))
      (f : Option Telemetry → Prog _ A)
      → ((t : Option Telemetry) → Settles Wired (λ w. Unit {0} × Built (good p) w) (f t))
      → Settles Wired (λ w. Unit {0} × Built (good p) w) (run_worker p.task_manager o >>= f)
  worker-Settles p o f rest =
      Settles-bind Wired (λ w. Unit {0} × Built (good p) w) (wires p 0)
        (run_worker p.task_manager o) f (tt, built p 0)
        (run_worker-suits (λ w. Unit {0} × Built (good p) w) p.task_manager o
          (λ w s. (s.1 p refl).3))
        (λ t _. rest t)

  new_partial-Settles :
      {A : Type 0} (c : Configuration) (f : Service → Prog _ A)
      → ((s : Service) → Always (Names (wires_of s)) (f s))
      → Settles Wired (λ _. Unit {0}) (new_partial sdk c >>= f)
  unfolding new_partial
  new_partial-Settles c f rest =
      subst (Settles Wired (λ _. Unit {0})) (sym (bind_assoc (connect_telemetry _) _ f)) (
        Settles-bind Wired (λ _. Unit {0}) unbuilt (connect_telemetry _) _ tt
          (connect_telemetry-suits (λ _. Unit {0}) _)
          λ o _. elim [
            | bad e ↦ (unbuilt, (tt, λ q h. cc))
            | good p ↦
                subst (Settles Wired (λ w. Unit {0} × Built (good p) w))
                  (sym (bind_assoc (run_worker p.task_manager o) _ f))
                  (worker-Settles p o _ λ t pool import queue.
                    settled _ (wires p pool) (f _)
                      ((((tt, built p pool), (refl, refl, refl)), (refl, refl)), (refl, refl))
                      (rest _))
          ])

  dev_new_partial-Settles :
      {A : Type 0} (c : Configuration) (f : DevService → Prog _ A)
      → ((s : DevService) → s.select_chain ≡ s.backend → Always (Names (wires_of s)) (f s))
      → Settles Wired (λ _. Unit {0}) (dev_new_partial sdk c >>= f)
  unfolding dev_new_partial
  dev_new_partial-Settles c f rest =
      subst (Settles Wired (λ _. Unit {0})) (sym (bind_assoc (connect_telemetry _) _ f)) (
        Settles-bind Wired (λ _. Unit {0}) unbuilt (connect_telemetry _) _ tt
          (connect_telemetry-suits (λ _. Unit {0}) _)
          λ o _. elim [
            | bad e ↦ (unbuilt, (tt, λ q h. cc))
            | good p ↦
                subst (Settles Wired (λ w. Unit {0} × Built (good p) w))
                  (sym (bind_assoc (run_worker p.task_manager o) _ f))
                  (worker-Settles p o _ λ t queue pool.
                    settled _ (wires p pool) (f _)
                      (((tt, built p pool), (refl, refl)), (refl, refl, refl)) (rest _ refl))
          ])

  start_dev_parachain_node-Settles :
      (config : Configuration) (delay : ℕ)
      → Settles Wired (λ _. Unit {0}) (start_dev_parachain_node sdk config delay)
  unfolding start_dev_parachain_node
  start_dev_parachain_node-Settles config delay =
      let c = without_peers config in
      Settles-bind Wired (λ _. Unit {0}) unbuilt (connect_telemetry _) _ tt
        (connect_telemetry-suits (λ _. Unit {0}) _)
        λ o _. elim [
          | bad e ↦ (unbuilt, (tt, λ q h. cc))
          | good p ↦ worker-Settles p o _ λ t pool.
              settled _ (wires p pool) (run_dev_parachain_node sdk c delay p t pool)
                ((tt, built p pool), (refl, refl, refl))
                (run_dev_parachain_node-Always sdk c delay p t pool)
        ]

  -- However the SDK answers, there are a client, a backend, a keystore, a transaction pool and a task
  -- manager such that each call of a parachain node's start that builds parts of a node or a pool
  -- got these, or failed, and each call that names a client, a backend, a keystore, a transaction
  -- pool or a task manager names the one of these; so do the tasks that the start spawns, the
  -- handles of the collator's service and of the offchain workers included.
  pub start_parachain_node-Wired :
      (env : Env) (config polkadot_config : Configuration) (options : ℕ) (para_id : ParaId)
      (hw : Option HwBench)
      → (w : Wires) × AllReplies
          (Wired w)
          env
          (run env [] (start_parachain_node sdk config polkadot_config options para_id hw)).0
  unfolding start_parachain_node
  start_parachain_node-Wired env config polkadot_config options para_id hw =
      let c = sdk.prepare_node_config config in
      Settles-run Wired (λ _. Unit {0}) env []
        (start_parachain_node sdk config polkadot_config options para_id hw)
        (new_partial-Settles c _ λ params. (
          refl,
          Always-or_fail _ _ _
              λ relay. run_parachain_node-Always sdk c para_id hw params relay.0 relay.1,
        ))
        (λ w _. tt)

  -- However the SDK answers, there are a client, a backend, a keystore, a transaction pool and a task
  -- manager such that each call of the start of a parachain with instant seal that builds parts of a
  -- node or a pool got these, or failed, and each call that names a client, a backend, a keystore, a
  -- transaction pool or a task manager names the one of these; so do the tasks that the start spawns.
  -- The same holds of the development chain's start. Blocks are sealed on the longest chain of that
  -- backend, with a consensus data provider for that client where the inherents are the development
  -- parachain's, and with none where they are the system's time.
  pub instant_seal-Wired :
      (env : Env) (config : Configuration) (delay : ℕ)
      → ((w : Wires) × AllReplies
            (Wired w)
            env
            (run env [] (start_dev_parachain_node sdk config delay)).0)
        × ((w : Wires) × AllReplies (Wired w) env (run env [] (new_full sdk config delay)).0)
  unfolding new_full
  instant_seal-Wired env config delay = (
    Settles-run Wired (λ _. Unit {0}) env [] (start_dev_parachain_node sdk config delay)
        (start_dev_parachain_node-Settles config delay) (λ w _. tt),
    Settles-run Wired (λ _. Unit {0}) env [] (new_full sdk config delay)
        (dev_new_partial-Settles config _
          λ params chain. run_new_full-Always sdk config delay params chain)
        (λ w _. tt),
  )
