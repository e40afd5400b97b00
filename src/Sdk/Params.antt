-- ===== src/Sdk/Params.antt =====
-- The parameter records of the SDK's calls, with the fields that node/src fills in.
use ink_node.Base.{ℕ, String, Bool, Option}
use ink_node.Sdk.Types.{
  Client, Backend, Keystore, TaskManager, Telemetry, TelemetryWorker, TransactionPool, ImportQueue,
  BlockImport, Proposer, RelayChain, CollatorKey, Overseer, Registry, Hash, ParaId, HwBench,
  Configuration, NetworkConfig, Network,
}

pub record NetConfiguration : Type 0 where
  pub config : NetworkConfig
  pub registry : Option Registry

pub record PoolParams : Type 0 where
  pub task_manager : TaskManager
  pub client : Client
  pub is_validator : Bool
  pub options : ℕ
  pub prometheus : Option Registry

pub record ImportQueueParams : Type 0 where
  pub client : Client
  pub block_import : BlockImport
  pub task_manager : TaskManager
  pub registry : Option Registry
  pub telemetry : Option Telemetry

pub data SybilResistance : Type 0 where
  resistant : SybilResistance
  unresistant : SybilResistance

-- `cumulus_client_service::BuildNetworkParams`.
pub record BuildNetworkParams : Type 0 where
  pub parachain_config : Configuration
  pub net_config : NetConfiguration
  pub client : Client
  pub transaction_pool : TransactionPool
  pub para_id : ParaId
  pub spawn_handle : TaskManager
  pub relay_chain_interface : RelayChain
  pub import_queue : ImportQueue
  pub sybil_resistance_level : SybilResistance
  pub metrics : Option Registry

-- `sc_service::BuildNetworkParams`; the node leaves the three optional parts empty.
pub record SoloNetworkParams : Type 0 where
  pub config : Configuration
  pub net_config : NetConfiguration
  pub client : Client
  pub transaction_pool : TransactionPool
  pub spawn_handle : TaskManager
  pub import_queue : ImportQueue
  pub block_announce_validator_builder : Option ℕ
  pub warp_sync_config : Option ℕ
  pub block_relay : Option ℕ
  pub metrics : Option Registry

pub record OffchainWorkerOptions : Type 0 where
  pub runtime_api_provider : Client
  pub keystore : Option Keystore
  pub offchain_db : Backend
  pub transaction_pool : Option TransactionPool
  pub network_provider : Network
  pub is_validator : Bool
  pub enable_http_requests : Bool

-- `rpc::FullDeps`, which the RPC builder gives to `rpc::create_full`.
pub record FullDeps : Type 0 where
  pub client : Client
  pub pool : TransactionPool

pub record SpawnTasksParams : Type 0 where
  pub rpc_builder : FullDeps
  pub client : Client
  pub transaction_pool : TransactionPool
  pub task_manager : TaskManager
  pub config : Configuration
  pub keystore : Keystore
  pub backend : Backend
  pub network : Network
  pub telemetry : Option Telemetry

pub data DaRecoveryProfile : Type 0 where
  collator : DaRecoveryProfile
  full_node : DaRecoveryProfile

pub record StartRelayChainTasksParams : Type 0 where
  pub client : Client
  pub announce_block : Network
  pub para_id : ParaId
  pub relay_chain_interface : RelayChain
  pub task_manager : TaskManager
  pub da_recovery_profile : DaRecoveryProfile
  pub import_queue : ImportQueue
  pub relay_chain_slot_duration : ℕ
  pub recovery_handle : Overseer
  pub sync_service : Network
  pub prometheus_registry : Option Registry

pub record ProposerParams : Type 0 where
  pub spawn_handle : TaskManager
  pub client : Client
  pub transaction_pool : TransactionPool
  pub prometheus_registry : Option Registry
  pub telemetry : Option Telemetry
  pub proof_recording : Bool

-- `CollatorService::new`, whose last argument gives the runtime's interface.
pub record CollatorService : Type 0 where
  pub block_status : Client
  pub spawn_handle : TaskManager
  pub announce_block : Network
  pub runtime_api : Client

-- `AuraParams`; durations are in milliseconds.
pub record AuraParams : Type 0 where
  pub block_import : BlockImport
  pub para_client : Client
  pub para_backend : Backend
  pub relay_client : RelayChain
  pub code_hash_provider : Client
  pub keystore : Keystore
  pub collator_key : CollatorKey
  pub para_id : ParaId
  pub overseer_handle : Overseer
  pub relay_chain_slot_duration : ℕ
  pub proposer : Proposer
  pub collator_service : CollatorService
  pub authoring_duration : ℕ
  pub reinitialize : Bool
  pub max_pov_percentage : Option ℕ

-- The inherents of a sealed block: the system's time, or those of the development parachain for a
-- client, a parachain and a slot duration.
pub data InherentProvider : Type 0 where
  system_time : InherentProvider
  dev_inherents : Client → ParaId → ℕ → InherentProvider

pub record SealBlockParams : Type 0 where
  pub parent_hash : Option Hash
  pub finalize : Bool
  pub create_empty : Bool
  pub env : Proposer
  pub select_chain : Backend
  pub block_import : Client
  pub consensus_data_provider : Option Client
  pub pool : TransactionPool
  pub client : Client
  pub create_inherent_data_providers : InherentProvider

pub record InstantSealParams : Type 0 where
  pub block_import : Client
  pub env : Proposer
  pub client : Client
  pub pool : TransactionPool
  pub select_chain : Backend
  pub consensus_data_provider : Option Client
  pub create_inherent_data_providers : InherentProvider

pub record DelayedFinalizeParams : Type 0 where
  pub client : Client
  pub spawn_handle : TaskManager
  pub delay_sec : ℕ

-- The futures that the node hands to a task manager.
pub data Task : Type 0 where
  run_telemetry : TelemetryWorker → Task
  run_offchain_workers : ℕ → Client → TaskManager → Task
  run_aura : AuraParams → Task
  run_instant_seal : InstantSealParams → Task
  run_delayed_finalize : DelayedFinalizeParams → Task
  initialize_hwbench_telemetry : Telemetry → HwBench → Task

pub record Spawn : Type 0 where
  pub task_manager : TaskManager
  pub essential : Bool
  pub blocking : Bool
  pub name : String
  pub group : Option String
  pub task : Task
