-- ===== src/Service/Parachain.antt =====
-- node/src/service.rs: `start_parachain_node`.
use ink_node.Base.{ℕ, false, Option, some, if◌then◌else◌}
use ink_node.Sdk.{
  Sdk, Client, TaskManager, RelayChain, CollatorKey, HwBench, ParaId, Configuration,
  DaRecoveryProfile, resistant,
}
use ink_node.Sdk
use ink_node.Prog.{Prog, ret, ask, or_fail, ◌>>=◌, ◌>>◌}
use ink_node.Service.Errors.{ServiceError}
use ink_node.Service.Partial.{Service, new_partial}
use ink_node.Service.Offchain.{start_offchain_workers}
use ink_node.Service.Hardware.{report_hardware}
use ink_node.Service.Consensus.{start_collation}

module _ (sdk : Sdk) where
  -- From the network on, with the parts that are already built.
  unfoldable pub run_parachain_node :
      Configuration
      → ParaId
      → Option HwBench
      → Service
      → RelayChain
      → Option CollatorKey
      → Prog ServiceError (TaskManager × Client)
  unfolding start_offchain_workers report_hardware start_collation
  run_parachain_node parachain_config para_id hwbench params relay_chain_interface collator_key = do
    let validator = sdk.is_authority parachain_config.role
    let registry = sdk.prometheus_registry parachain_config
    network ←
        ask (
          Sdk.network (record {
            parachain_config = parachain_config;
            net_config = record { config = parachain_config.network; registry = registry };
            client = params.client;
            transaction_pool = params.transaction_pool;
            para_id = para_id;
            spawn_handle = params.task_manager;
            relay_chain_interface = relay_chain_interface;
            import_queue = params.import_queue;
            sybil_resistance_level = resistant;
            metrics = parachain_config.prometheus_config;
          }))
        >>= or_fail ServiceError.sdk
    start_offchain_workers parachain_config.offchain_worker params.task_manager params.client
        (some "offchain-work")
        (record {
          runtime_api_provider = params.client;
          keystore = some params.keystore_container;
          offchain_db = params.backend;
          transaction_pool = some params.transaction_pool;
          network_provider = network;
          is_validator = validator;
          enable_http_requests = false;
        })
    ask (
          Sdk.spawn_tasks (record {
            rpc_builder = record { client = params.client; pool = params.transaction_pool };
            client = params.client;
            transaction_pool = params.transaction_pool;
            task_manager = params.task_manager;
            config = parachain_config;
            keystore = params.keystore_container;
            backend = params.backend;
            network = network;
            telemetry = params.other.1;
          }))
        >>= or_fail ServiceError.sdk
    report_hardware validator params.task_manager params.other.1 hwbench
    overseer ← ask (Sdk.overseer_handle relay_chain_interface) >>= or_fail ServiceError.application
    ask (
          Sdk.relay_chain_tasks (record {
            client = params.client;
            announce_block = network;
            para_id = para_id;
            relay_chain_interface = relay_chain_interface;
            task_manager = params.task_manager;
            da_recovery_profile =
                if validator then DaRecoveryProfile.collator else DaRecoveryProfile.full_node;
            import_queue = params.import_queue;
            relay_chain_slot_duration = 6000;
            recovery_handle = overseer;
            sync_service = network;
            prometheus_registry = registry;
          }))
        >>= or_fail ServiceError.sdk
    start_collation validator params registry relay_chain_interface 6000 para_id collator_key
        overseer network
    ret (params.task_manager, params.client)

  unfoldable pub start_parachain_node :
      Configuration
      → Configuration
      → ℕ
      → ParaId
      → Option HwBench
      → Prog ServiceError (TaskManager × Client)
  unfolding run_parachain_node
  start_parachain_node config polkadot_config collator_options para_id hwbench = do
    let parachain_config = sdk.prepare_node_config config
    params ← new_partial sdk parachain_config
    relay ←
        ask (
          Sdk.relay_chain_interface polkadot_config parachain_config params.other.2
            params.task_manager collator_options hwbench)
        >>= or_fail ServiceError.application
    run_parachain_node parachain_config para_id hwbench params relay.0 relay.1
