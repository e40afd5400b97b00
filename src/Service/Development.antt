-- ===== src/Service/Development.antt =====
-- node/src/service/dev.rs: `new_full`, the development chain without consensus.
use ink_node.Base.{ℕ, true, false, none, some}
use ink_node.Sdk.{
  Sdk, TaskManager, Configuration, Network, Proposer, run_instant_seal, run_delayed_finalize,
  system_time,
}
use ink_node.Sdk
use ink_node.Prog.{Prog, ret, ask, or_fail, ◌>>=◌, ◌>>◌}
use ink_node.Service.Errors.{ServiceError}
use ink_node.Service.Partial.{DevService, dev_new_partial}
use ink_node.Service.Offchain.{start_offchain_workers}

-- The first block, instant seal and the delayed finalization, which is started for any delay.
unfoldable pub seal_from_genesis : DevService → Proposer → ℕ → Prog ServiceError (Unit {0})
seal_from_genesis params proposer finalize_delay_sec = do
  ask (
      Sdk.seal_block (record {
        parent_hash = none;
        finalize = true;
        create_empty = true;
        env = proposer;
        select_chain = params.select_chain;
        block_import = params.client;
        consensus_data_provider = none;
        pool = params.transaction_pool;
        client = params.client;
        create_inherent_data_providers = system_time;
      }))
  ask (
      Sdk.spawn (record {
        task_manager = params.task_manager;
        essential = true;
        blocking = true;
        name = "instant-seal";
        group = none;
        task = run_instant_seal (record {
          block_import = params.client;
          env = proposer;
          client = params.client;
          pool = params.transaction_pool;
          select_chain = params.select_chain;
          consensus_data_provider = none;
          create_inherent_data_providers = system_time;
        });
      }))
  ask (
      Sdk.spawn (record {
        task_manager = params.task_manager;
        essential = true;
        blocking = true;
        name = "delayed_finalize";
        group = none;
        task = run_delayed_finalize (record {
          client = params.client;
          spawn_handle = params.task_manager;
          delay_sec = finalize_delay_sec;
        });
      }))

module _ (sdk : Sdk) where
  -- From the network on.
  unfoldable pub run_new_full : Configuration → ℕ → DevService → Prog ServiceError TaskManager
  unfolding start_offchain_workers seal_from_genesis
  run_new_full config finalize_delay_sec params = do
    network ←
        ask (
          Sdk.solo_network (record {
            config = config;
            net_config = record { config = config.network; registry = config.prometheus_config };
            client = params.client;
            transaction_pool = params.transaction_pool;
            spawn_handle = params.task_manager;
            import_queue = params.import_queue;
            block_announce_validator_builder = none;
            warp_sync_config = none;
            block_relay = none;
            metrics = sdk.prometheus_registry config;
          }))
        >>= or_fail ServiceError.sdk
    start_offchain_workers config.offchain_worker params.task_manager params.client
        (some "offchain-worker")
        (record {
          runtime_api_provider = params.client;
          keystore = some params.keystore_container;
          offchain_db = params.backend;
          transaction_pool = some params.transaction_pool;
          network_provider = network;
          is_validator = sdk.is_authority config.role;
          enable_http_requests = true;
        })
    ask (
          Sdk.spawn_tasks (record {
            rpc_builder = record { client = params.client; pool = params.transaction_pool };
            client = params.client;
            transaction_pool = params.transaction_pool;
            task_manager = params.task_manager;
            config = config;
            keystore = params.keystore_container;
            backend = params.backend;
            network = network;
            telemetry = params.other;
          }))
        >>= or_fail ServiceError.sdk
    proposer ← ask (
        Sdk.proposer (record {
          spawn_handle = params.task_manager;
          client = params.client;
          transaction_pool = params.transaction_pool;
          prometheus_registry = sdk.prometheus_registry config;
          telemetry = params.other;
          proof_recording = false;
        }))
    seal_from_genesis params proposer finalize_delay_sec
    ret params.task_manager

  unfoldable pub new_full : Configuration → ℕ → Prog ServiceError TaskManager
  unfolding run_new_full
  new_full config finalize_delay_sec = do
    params ← dev_new_partial sdk config
    run_new_full config finalize_delay_sec params
