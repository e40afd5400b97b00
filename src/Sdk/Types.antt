-- ===== src/Sdk/Types.antt =====
-- The values of the SDK that node/src passes around. An object behind an `Arc`, a handle or a
-- channel is known by a number: its clones and its handles carry the same number.
use ink_node.Base.{ℕ, String, Bool, Option, List}
use ink_node.Sdk.Json.{Json, Fields}

abbrev pub Client : Type 0
Client = ℕ

abbrev pub Backend : Type 0
Backend = ℕ

abbrev pub Keystore : Type 0
Keystore = ℕ

abbrev pub TaskManager : Type 0
TaskManager = ℕ

abbrev pub Telemetry : Type 0
Telemetry = ℕ

abbrev pub TelemetryWorker : Type 0
TelemetryWorker = ℕ

abbrev pub TransactionPool : Type 0
TransactionPool = ℕ

abbrev pub ImportQueue : Type 0
ImportQueue = ℕ

abbrev pub BlockImport : Type 0
BlockImport = ℕ

abbrev pub Proposer : Type 0
Proposer = ℕ

abbrev pub RelayChain : Type 0
RelayChain = ℕ

abbrev pub CollatorKey : Type 0
CollatorKey = ℕ

abbrev pub Overseer : Type 0
Overseer = ℕ

abbrev pub Registry : Type 0
Registry = ℕ

abbrev pub Endpoints : Type 0
Endpoints = List String

abbrev pub HwBench : Type 0
HwBench = ℕ

abbrev pub Hash : Type 0
Hash = ℕ

abbrev pub ParaId : Type 0
ParaId = ℕ

abbrev pub Public : Type 0
Public = ℕ

abbrev pub AccountId : Type 0
AccountId = ℕ

pub data Role : Type 0 where
  full : Role
  authority : Role

pub record ExecutorConfig : Type 0 where
  pub wasm_method : ℕ
  pub default_heap_pages : Option ℕ
  pub max_runtime_instances : ℕ
  pub runtime_cache_size : ℕ

-- `peers` is the rest of the network's configuration.
pub record NetworkConfig : Type 0 where
  pub in_peers : ℕ
  pub out_peers : ℕ
  pub peers : ℕ

-- `chain_spec::Extensions`.
pub record Extensions : Type 0 where
  pub relay_chain : String
  pub para_id : ℕ

pub data ChainType : Type 0 where
  development : ChainType
  local : ChainType
  live : ChainType

-- A chain specification, with what the builder of `GenericChainSpec` is given; `wasm` stands for
-- the runtime's code.
pub record ChainSpec : Type 0 where
  pub name : String
  pub id : String
  pub chain_type : ChainType
  pub wasm : ℕ
  pub extensions : Option Extensions
  pub genesis_config_patch : Json
  pub protocol_id : Option String
  pub properties : Fields

-- `sc_service::Configuration`, the fields that the node reads.
pub record Configuration : Type 0 where
  pub telemetry_endpoints : Option Endpoints
  pub executor : ExecutorConfig
  pub role : Role
  pub transaction_pool : ℕ
  pub prometheus_config : Option Registry
  pub network : NetworkConfig
  pub offchain_worker : Bool
  pub chain_spec : ChainSpec
  pub database : Option String
  pub base_path : String
  pub tokio_handle : ℕ

-- `NetworkWorker` objects that `build_network` returns.
pub record Network : Type 0 where
  pub network : ℕ
  pub system_rpc_tx : ℕ
  pub tx_handler_controller : ℕ
  pub sync_service : ℕ

-- What `new_full_parts` returns.
pub record Parts : Type 0 where
  pub client : Client
  pub backend : Backend
  pub keystore_container : Keystore
  pub task_manager : TaskManager

pub data HeapAllocStrategy : Type 0 where
  default_strategy : HeapAllocStrategy
  static : ℕ → HeapAllocStrategy

-- The settings that `WasmExecutor::builder` is given.
pub record Executor : Type 0 where
  pub wasm_method : ℕ
  pub onchain_heap : HeapAllocStrategy
  pub offchain_heap : HeapAllocStrategy
  pub max_runtime_instances : ℕ
  pub runtime_cache_size : ℕ

-- `TransactionPaymentApi` and the like: the RPC modules that `create_full` merges.
pub data RpcModule : Type 0 where
  system_rpc : Client → TransactionPool → RpcModule
  transaction_payment_rpc : Client → RpcModule

-- A header, as far as the development inherents read it.
pub record Header : Type 0 where
  pub number : ℕ
  pub encoded : List ℕ

-- The RPC, benchmark and import settings that a subcommand was parsed with.
abbrev pub CommandArgs : Type 0
CommandArgs = ℕ

-- A subcommand's own work, on what node/src/command.rs hands it.
pub data CommandRun : Type 0 where
  build_spec : CommandArgs → ChainSpec → NetworkConfig → CommandRun
  check_block : CommandArgs → Client → ImportQueue → CommandRun
  export_blocks : CommandArgs → Client → Option String → CommandRun
  export_state : CommandArgs → Client → ChainSpec → CommandRun
  import_blocks : CommandArgs → Client → ImportQueue → CommandRun
  revert : CommandArgs → Client → Backend → CommandRun
  purge_chain : CommandArgs → Configuration → Configuration → CommandRun
  export_genesis_head : CommandArgs → Client → CommandRun
  export_genesis_wasm : CommandArgs → ChainSpec → CommandRun
  benchmark_pallet : CommandArgs → ChainSpec → CommandRun
  benchmark_block : CommandArgs → Client → CommandRun
  benchmark_storage : CommandArgs → Configuration → Client → Backend → CommandRun
  benchmark_machine : CommandArgs → Configuration → CommandRun

-- `cumulus_client_cli::RunCmd`: the shared parameters that the node reads or sets, and a number for
-- the rest.
pub record RunCmd : Type 0 where
  pub chain : Option String
  pub dev : Bool
  pub log : List String
  pub rest : ℕ

-- Whose settings a runner is created from.
pub data RunnerSource : Type 0 where
  of_command : CommandArgs → RunnerSource
  of_run : RunCmd → RunnerSource

-- `cli::RelayChainCli`; `base` is the relay chain's parsed `RunCmd`.
pub record RelayChainCli : Type 0 where
  pub base : ℕ
  pub chain_id : Option String
  pub base_path : Option String

-- Functions of the SDK that change nothing.
pub record Sdk : Type 0 where
  pub is_authority : Role → Bool
  pub prometheus_registry : Configuration → Option Registry
  pub prepare_node_config : Configuration → Configuration
  pub get_extension : Option Extensions → Option Extensions
  pub normalize : RunCmd → RunCmd
  pub collator_options : RunCmd → ℕ
  pub executable_name : String
  pub join : String → String → String
  pub public_from_string : String → Option Public
  pub into_account : Public → AccountId
  pub account_json : AccountId → Json
  pub aura_json : Public → Json
  pub wasm_binary : Option ℕ
  pub dev_wasm_binary : Option ℕ
  pub xcm_version : ℕ
