-- ===== src/Sdk/Calls.antt =====
-- The calls of the SDK that act on the world or that can fail, each with the type of its reply.
use ink_node.Base.{ℕ, String, Bool, Option, List, Fallible}
use ink_node.Sdk.Types.{
  Client, Backend, Telemetry, TelemetryWorker, TaskManager, TransactionPool, ImportQueue,
  BlockImport, Proposer, RelayChain, CollatorKey, Overseer, Registry, Endpoints, HwBench, Hash,
  ExecutorConfig, ChainSpec, Configuration, Network, Parts, Executor, RpcModule, Header, CommandRun,
  RunnerSource, RelayChainCli,
}
use ink_node.Sdk.Params.{
  PoolParams, ImportQueueParams, BuildNetworkParams, SoloNetworkParams, OffchainWorkerOptions,
  SpawnTasksParams, StartRelayChainTasksParams, ProposerParams, SealBlockParams, Spawn,
}

pub data Call : Type 0 where
  -- telemetry and the parts of a node
  telemetry_worker : ℕ → Call
  new_telemetry : TelemetryWorker → Endpoints → Call
  full_parts_record_import : Configuration → Option Telemetry → Executor → Bool → Call
  full_parts : Configuration → Option Telemetry → ExecutorConfig → Call
  transaction_pool : PoolParams → Call
  block_import : Client → Backend → Call
  verifying_import_queue : ImportQueueParams → Call
  manual_seal_import_queue : Client → TaskManager → Option Registry → Call
  proposer : ProposerParams → Call
  -- tasks
  spawn : Spawn → Call
  spawn_tasks : SpawnTasksParams → Call
  -- network and relay chain
  relay_chain_interface :
      Configuration
      → Configuration
      → Option TelemetryWorker
      → TaskManager
      → ℕ
      → Option HwBench
      → Call
  network : BuildNetworkParams → Call
  solo_network : SoloNetworkParams → Call
  offchain_workers : OffchainWorkerOptions → Call
  overseer_handle : RelayChain → Call
  relay_chain_tasks : StartRelayChainTasksParams → Call
  merge : RpcModule → Call
  -- hardware
  create_dir_all : String → Call
  gather_hwbench : String → Call
  print_hwbench : HwBench → Call
  check_hardware : HwBench → Bool → Call
  warn : String → Call
  -- blocks
  slot_duration : Client → Call
  seal_block : SealBlockParams → Call
  header : Client → Hash → Call
  collect_collation_info : Client → Hash → Header → Call
  -- the command line
  create_runner : RunnerSource → Call
  run_command : CommandRun → Call
  spec_from_file : String → Call
  parse_relay_args : List String → Call
  relay_configuration : RelayChainCli → ℕ → Call
  run_until_exit : TaskManager → Call

abbrev pub Reply : Call → Type 0
Reply (telemetry_worker _) = Fallible TelemetryWorker
Reply (new_telemetry _ _) = Telemetry
Reply (full_parts_record_import _ _ _ _) = Fallible Parts
Reply (full_parts _ _ _) = Fallible Parts
Reply (transaction_pool _) = TransactionPool
Reply (block_import _ _) = BlockImport
Reply (verifying_import_queue _) = ImportQueue
Reply (manual_seal_import_queue _ _ _) = ImportQueue
Reply (proposer _) = Proposer
Reply (spawn _) = Unit
Reply (spawn_tasks _) = Fallible (Unit {0})
Reply (relay_chain_interface _ _ _ _ _ _) = Fallible (RelayChain × Option CollatorKey)
Reply (network _) = Fallible Network
Reply (solo_network _) = Fallible Network
Reply (offchain_workers _) = Fallible ℕ
Reply (overseer_handle _) = Fallible Overseer
Reply (relay_chain_tasks _) = Fallible (Unit {0})
Reply (merge _) = Fallible (Unit {0})
Reply (create_dir_all _) = Fallible (Unit {0})
Reply (gather_hwbench _) = HwBench
Reply (print_hwbench _) = Unit
Reply (check_hardware _ _) = Fallible (Unit {0})
Reply (warn _) = Unit
Reply (slot_duration _) = Fallible ℕ
Reply (seal_block _) = Unit
Reply (header _ _) = Fallible (Option Header)
Reply (collect_collation_info _ _ _) = Fallible (Option ℕ)
Reply (create_runner _) = Fallible Configuration
Reply (run_command _) = Fallible (Unit {0})
Reply (spec_from_file _) = Fallible ChainSpec
Reply (parse_relay_args _) = ℕ
Reply (relay_configuration _ _) = Fallible Configuration
Reply (run_until_exit _) = Fallible (Unit {0})
