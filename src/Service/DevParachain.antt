-- ===== src/Service/DevParachain.antt =====
-- node/src/service.rs: `start_dev_parachain_node`, the parachain with instant seal.
use ink_node.Base.{ℕ, Bool, true, false, ltb, Option, none, some, map_some, Fallible, good, bad}
use ink_node.Sdk.{
  Sdk, Client, TaskManager, Telemetry, TelemetryWorker, ImportQueue, TransactionPool, Configuration,
  Network, Parts, ParaId, run_instant_seal, run_delayed_finalize, dev_inherents,
}
use ink_node.Sdk
use ink_node.Prog.{Prog, ret, ask, or_fail, ok_or, abort, ◌>>=◌, ◌>>◌}
use ink_node.Service.Errors.{ServiceError}
use ink_node.Service.Partial.{
  without_empty, connect_telemetry, run_worker, telemetry_of, executor, build_pool,
}
use ink_node.Service.Offchain.{start_offchain_workers}

-- `config.network.default_peers_set.in_peers = 0` and the same of `out_peers`.
unfoldable pub without_peers : Configuration → Configuration
without_peers config = record config {
  network = record config.network { in_peers = 0; out_peers = 0 };
}

-- `sc_consensus_aura::slot_duration(…).expect(…)`.
unfoldable pub expect_slot_duration : Fallible ℕ → Prog ServiceError ℕ
expect_slot_duration (good d) = ret d
expect_slot_duration (bad e) = abort "Slot duration is always present in Aura runtime; qed."

-- What stands under `if finalize_delay_sec > 0`.
finalize_if : Bool → ℕ → Client → TaskManager → Prog ServiceError (Unit {0})
finalize_if false delay client task_manager = ret tt
finalize_if true delay client task_manager = ask (
    Sdk.spawn (record {
      task_manager = task_manager;
      essential = true;
      blocking = true;
      name = "delayed_finalize";
      group = none;
      task =
          run_delayed_finalize
            (record { client = client; spawn_handle = task_manager; delay_sec = delay });
    }))

unfoldable pub finalize_later : ℕ → Client → TaskManager → Prog ServiceError (Unit {0})
unfolding finalize_if
finalize_later delay client task_manager = finalize_if (ltb 0 delay) delay client task_manager

-- `create_dev_inherent_data_providers` in the seal parameters, the seal's task, and the delayed
-- finalization.
unfoldable pub seal_instantly :
    Parts → TransactionPool → ℕ → ParaId → ℕ → ℕ → Prog ServiceError (Unit {0})
unfolding finalize_later
seal_instantly parts pool proposer para_id slot_duration finalize_delay_sec = do
  ask (
      Sdk.spawn (record {
        task_manager = parts.task_manager;
        essential = true;
        blocking = true;
        name = "instant-seal";
        group = none;
        task = run_instant_seal (record {
          block_import = parts.client;
          env = proposer;
          client = parts.client;
          pool = pool;
          select_chain = parts.backend;
          consensus_data_provider = some parts.client;
          create_inherent_data_providers = dev_inherents parts.client para_id slot_duration;
        });
      }))
  finalize_later finalize_delay_sec parts.client parts.task_manager

module _ (sdk : Sdk) where
  -- From the import queue on, with the parts that are already built.
  unfoldable pub run_dev_parachain_node :
      Configuration → ℕ → Parts → Option Telemetry → TransactionPool → Prog ServiceError TaskManager
  unfolding start_offchain_workers expect_slot_duration seal_instantly
  run_dev_parachain_node config finalize_delay_sec parts telemetry pool = do
    queue ← ask (
        Sdk.manual_seal_import_queue parts.client parts.task_manager
          (sdk.prometheus_registry config))
    network ←
        ask (
          Sdk.solo_network (record {
            config = config;
            net_config = record { config = config.network; registry = config.prometheus_config };
            client = parts.client;
            transaction_pool = pool;
            spawn_handle = parts.task_manager;
            import_queue = queue;
            block_announce_validator_builder = none;
            warp_sync_config = none;
            block_relay = none;
            metrics = config.prometheus_config;
          }))
        >>= or_fail ServiceError.sdk
    start_offchain_workers config.offchain_worker parts.task_manager parts.client
        (some "offchain-work")
        (record {
          runtime_api_provider = parts.client;
          keystore = some parts.keystore_container;
          offchain_db = parts.backend;
          transaction_pool = some pool;
          network_provider = network;
          is_validator = sdk.is_authority config.role;
          enable_http_requests = true;
        })
    proposer ← ask (
        Sdk.proposer (record {
          spawn_handle = parts.task_manager;
          client = parts.client;
          transaction_pool = pool;
          prometheus_registry = none;
          telemetry = none;
          proof_recording = false;
        }))
    slot_duration ← ask (Sdk.slot_duration parts.client) >>= expect_slot_duration
    extensions ←
        ok_or (ServiceError.other "Could not find parachain ID in chain-spec.")
          (sdk.get_extension config.chain_spec.extensions)
    seal_instantly parts pool proposer extensions.para_id slot_duration finalize_delay_sec
    ask (
          Sdk.spawn_tasks (record {
            rpc_builder = record { client = parts.client; pool = pool };
            client = parts.client;
            transaction_pool = pool;
            task_manager = parts.task_manager;
            config = config;
            keystore = parts.keystore_container;
            backend = parts.backend;
            network = network;
            telemetry = telemetry;
          }))
        >>= or_fail ServiceError.sdk
    ret parts.task_manager

  unfoldable pub start_dev_parachain_node : Configuration → ℕ → Prog ServiceError TaskManager
  unfolding without_peers executor build_pool
  start_dev_parachain_node config' finalize_delay_sec = do
    let config = without_peers config'
    telemetry ← connect_telemetry (without_empty config.telemetry_endpoints)
    parts ←
        ask (
          Sdk.full_parts_record_import config (map_some telemetry_of telemetry)
            (executor config.executor) true)
        >>= or_fail ServiceError.sdk
    telemetry' ← run_worker parts.task_manager telemetry
    pool ← build_pool sdk parts.task_manager parts.client config
    run_dev_parachain_node config finalize_delay_sec parts telemetry' pool
