-- ===== src/Service/Consensus.antt =====
-- node/src/service.rs: `start_consensus`, and the test under which a collator calls it.
use ink_node.Base.{ℕ, Bool, true, false, Option, none}
use ink_node.Sdk.{
  Client, Backend, TaskManager, Telemetry, TransactionPool, BlockImport, Keystore, RelayChain,
  CollatorKey, Overseer, Registry, ParaId, Network, run_aura,
}
use ink_node.Sdk
use ink_node.Prog.{Prog, ret, ask, expect, ◌>>=◌}
use ink_node.Service.Errors.{ServiceError}
use ink_node.Service.Partial.{Service}

unfoldable pub start_consensus :
    Client
    → Backend
    → BlockImport
    → Option Registry
    → Option Telemetry
    → TaskManager
    → RelayChain
    → TransactionPool
    → Keystore
    → ℕ
    → ParaId
    → CollatorKey
    → Overseer
    → Network
    → Prog ServiceError (Unit {0})
start_consensus client backend block_import prometheus_registry telemetry task_manager
      relay_chain_interface transaction_pool keystore relay_chain_slot_duration para_id collator_key
      overseer_handle announce_block =
    do
      proposer ← ask (
          Sdk.proposer (record {
            spawn_handle = task_manager;
            client = client;
            transaction_pool = transaction_pool;
            prometheus_registry = prometheus_registry;
            telemetry = telemetry;
            proof_recording = true;
          }))
      ask (
          Sdk.spawn (record {
            task_manager = task_manager;
            essential = true;
            blocking = false;
            name = "aura";
            group = none;
            task = run_aura (record {
              block_import = block_import;
              para_client = client;
              para_backend = backend;
              relay_client = relay_chain_interface;
              code_hash_provider = client;
              keystore = keystore;
              collator_key = collator_key;
              para_id = para_id;
              overseer_handle = overseer_handle;
              relay_chain_slot_duration = relay_chain_slot_duration;
              proposer = proposer;
              collator_service = record {
                block_status = client;
                spawn_handle = task_manager;
                announce_block = announce_block;
                runtime_api = client;
              };
              authoring_duration = 2000;
              reinitialize = false;
              max_pov_percentage = none;
            });
          }))

-- `if validator { start_consensus(…)?; }`; the key is unwrapped before the call.
unfoldable pub start_collation :
    Bool
    → Service
    → Option Registry
    → RelayChain
    → ℕ
    → ParaId
    → Option CollatorKey
    → Overseer
    → Network
    → Prog ServiceError (Unit {0})
start_collation false params registry relay slot_duration para_id collator_key overseer announce =
    ret tt
start_collation true params registry relay slot_duration para_id collator_key overseer announce = do
  key ← expect "Command line arguments do not allow this. qed" collator_key
  start_consensus params.client params.backend params.other.0 registry params.other.1
      params.task_manager relay params.transaction_pool params.keystore_container slot_duration
      para_id key overseer announce
