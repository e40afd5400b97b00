-- ===== src/Service/Peers.antt =====
-- The calls of `start_dev_parachain_node` that concern peers and the relay chain.
use ink_node.Base.{
  ℕ, ◌≡◌, refl, String, Bool, true, false, Option, none, some, [], good, bad, ltb, inl, inr,
  Bool-cases,
}
use ink_node.Sdk.{
  Sdk, Call, Client, TaskManager, Telemetry, TelemetryWorker, TransactionPool, Configuration, Parts,
  NetworkConfig, Endpoints, OffchainWorkerOptions,
}
use ink_node.Prog.{Env, run}
use ink_node.Prog.Always.{All, Always, Always-run, Always-bind, Always-or_fail, Always-ok_or}
use ink_node.Service.Partial.{connect_telemetry, run_worker, without_empty}
use ink_node.Service.Offchain.{start_offchain_workers}
use ink_node.Service.DevParachain.{
  run_dev_parachain_node, start_dev_parachain_node, without_peers, finalize_later,
}

abbrev pub NoPeers : NetworkConfig → Type 0
NoPeers n = (n.in_peers ≡ 0) × (n.out_peers ≡ 0)

-- A call that joins a relay chain or its network is never allowed; one that gets a configuration
-- gets one without peers.
abbrev pub IsAlone : Call → Type 0
IsAlone (Call.relay_chain_interface _ _ _ _ _ _) = ⊥
IsAlone (Call.network _) = ⊥
IsAlone (Call.relay_chain_tasks _) = ⊥
IsAlone (Call.overseer_handle _) = ⊥
IsAlone (Call.full_parts_record_import c _ _ _) = NoPeers c.network
IsAlone (Call.full_parts c _ _) = NoPeers c.network
IsAlone (Call.solo_network p) = NoPeers p.config.network × NoPeers p.net_config.config
IsAlone (Call.spawn_tasks p) = NoPeers p.config.network
IsAlone _ = Unit

pub connect_telemetry-IsAlone : (e : Option Endpoints) → Always IsAlone (connect_telemetry e)
unfolding connect_telemetry
connect_telemetry-IsAlone none = tt
connect_telemetry-IsAlone (some e) = (tt, Always-or_fail _ _ _ λ worker. (tt, λ _. tt))

pub run_worker-IsAlone :
    (tm : TaskManager) (o : Option (TelemetryWorker × Telemetry)) → Always IsAlone (run_worker tm o)
unfolding run_worker
run_worker-IsAlone tm none = tt
run_worker-IsAlone tm (some (w, t)) = (tt, λ _. tt)

start_offchain_workers-IsAlone :
    (enabled : Bool) (tm : TaskManager) (client : Client) (group : Option String)
    (options : OffchainWorkerOptions)
    → Always IsAlone (start_offchain_workers enabled tm client group options)
unfolding start_offchain_workers
start_offchain_workers-IsAlone false tm client group options = tt
start_offchain_workers-IsAlone true tm client group options =
    (tt, Always-or_fail _ _ _ λ workers. (tt, λ _. tt))

finalize_later-IsAlone :
    (delay : ℕ) (client : Client) (tm : TaskManager)
    → Always IsAlone (finalize_later delay client tm)
unfolding finalize_later
finalize_later-IsAlone delay client tm = elim (Bool-cases (ltb 0 delay)) [
  | inl later ↦ rw (later, finalize_later) (tt, λ _. tt)
  | inr never ↦ rw (never, finalize_later) tt
]

module _ (sdk : Sdk) where
  run_dev_parachain_node-IsAlone :
      (c : Configuration) (delay : ℕ) (parts : Parts) (t : Option Telemetry)
      (pool : TransactionPool)
      → NoPeers c.network
      → Always IsAlone (run_dev_parachain_node sdk c delay parts t pool)
  unfolding run_dev_parachain_node
  run_dev_parachain_node-IsAlone c delay parts t pool h = (
    tt,
    λ queue. (
      (h, h),
      Always-or_fail _ _ _ λ network.
          Always-bind _ _ _ (start_offchain_workers-IsAlone c.offchain_worker _ _ _ _) λ _. (
            tt,
            λ proposer. (
              tt,
              elim [
                | bad _ ↦ tt
                | good d ↦
                    Always-ok_or _ _ _
                      (λ ext. (
                        tt,
                        λ _.
                            Always-bind _ _ _ (finalize_later-IsAlone delay _ _)
                              λ _. (h, Always-or_fail _ _ _ λ _. tt),
                      ))
                      (sdk.get_extension c.chain_spec.extensions)
              ],
            ),
          ),
    ),
  )

  -- Whatever configuration it is given, the parachain with instant seal builds its parts, its network
  -- and its services with no peers in or out, and neither joins a relay chain nor starts its tasks.
  pub start_dev_parachain_node-IsAlone :
      (env : Env) (config : Configuration) (delay : ℕ)
      → All IsAlone (run env [] (start_dev_parachain_node sdk config delay)).0
  unfolding start_dev_parachain_node
  start_dev_parachain_node-IsAlone env config delay =
      Always-run IsAlone env [] (start_dev_parachain_node sdk config delay)
        (Always-bind _ _ _ (connect_telemetry-IsAlone (without_empty config.telemetry_endpoints))
          λ o. (
            (refl, refl),
            Always-or_fail _ _ _ λ parts.
                Always-bind _ _ _ (run_worker-IsAlone parts.task_manager o) λ t. (
                  tt,
                  λ pool.
                      run_dev_parachain_node-IsAlone (without_peers config) delay parts t pool
                        (refl, refl),
                ),
          ))
        tt
