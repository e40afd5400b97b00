-- ===== src/Service/Partial.antt =====
-- The parts that every kind of node starts from: telemetry, the executor's settings, the
-- transaction pool and `new_partial` of the parachain (node/src/service.rs) and of the
-- development chain (node/src/service/dev.rs).
use ink_node.Base.{ℕ, ◌%◌, ◌^◌, true, false, Option, none, some, [], ◌∷◌, map_some}
use ink_node.Sdk.{
  Sdk, Client, Backend, TaskManager, Telemetry, TelemetryWorker, TransactionPool, ImportQueue,
  BlockImport, Keystore, Endpoints, ExecutorConfig, Configuration, Executor, HeapAllocStrategy,
  default_strategy, static, run_telemetry, telemetry_worker, new_telemetry,
  full_parts_record_import, full_parts, transaction_pool, block_import, verifying_import_queue,
  manual_seal_import_queue, spawn,
}
use ink_node.Prog.{Prog, ret, ask, or_fail, ◌>>=◌, ◌>>◌}
use ink_node.Service.Errors.{ServiceError}

-- `sc_service::PartialComponents`.
pub record PartialComponents (S O : Type 0) : Type 0 where
  pub client : Client
  pub backend : Backend
  pub import_queue : ImportQueue
  pub keystore_container : Keystore
  pub task_manager : TaskManager
  pub transaction_pool : TransactionPool
  pub select_chain : S
  pub other : O

abbrev pub Service : Type 0
Service = PartialComponents (Unit {0}) (BlockImport × Option Telemetry × Option TelemetryWorker)

abbrev pub DevService : Type 0
DevService = PartialComponents Backend (Option Telemetry)

-- `.filter(|x| !x.is_empty())`.
unfoldable pub without_empty : Option Endpoints → Option Endpoints
without_empty none = none
without_empty (some []) = none
without_empty (some (e ∷ es)) = some (e ∷ es)

-- The worker and the telemetry for the endpoints that are left.
unfoldable pub connect_telemetry :
    Option Endpoints → Prog ServiceError (Option (TelemetryWorker × Telemetry))
connect_telemetry none = ret none
connect_telemetry (some endpoints) = do
  worker ← ask (telemetry_worker 16) >>= or_fail ServiceError.telemetry
  telemetry ← ask (new_telemetry worker endpoints)
  ret (some (worker, telemetry))

-- `telemetry.map(|(worker, telemetry)| { … spawn("telemetry", None, worker.run()); telemetry })`.
unfoldable pub run_worker :
    TaskManager → Option (TelemetryWorker × Telemetry) → Prog ServiceError (Option Telemetry)
run_worker task_manager none = ret none
run_worker task_manager (some (worker, telemetry)) = do
  ask (
      spawn (record {
        task_manager = task_manager;
        essential = false;
        blocking = false;
        name = "telemetry";
        group = none;
        task = run_telemetry worker;
      }))
  ret (some telemetry)

abbrev pub telemetry_of : TelemetryWorker × Telemetry → Telemetry
telemetry_of (worker, telemetry) = telemetry

abbrev pub worker_of : TelemetryWorker × Telemetry → TelemetryWorker
worker_of (worker, telemetry) = worker

-- `h as _` into the `u32` of `extra_pages`.
unfoldable pub heap_pages : ExecutorConfig → HeapAllocStrategy
heap_pages e = go e.default_heap_pages
  where
    go : Option ℕ → HeapAllocStrategy
    go none = default_strategy
    go (some h) = static (h % 2 ^ 32)

unfoldable pub executor : ExecutorConfig → Executor
unfolding heap_pages
executor e = record {
  wasm_method = e.wasm_method;
  onchain_heap = heap_pages e;
  offchain_heap = heap_pages e;
  max_runtime_instances = e.max_runtime_instances;
  runtime_cache_size = e.runtime_cache_size;
}

module _ (sdk : Sdk) where
  -- `sc_transaction_pool::Builder`.
  unfoldable pub build_pool :
      TaskManager → Client → Configuration → Prog ServiceError TransactionPool
  build_pool task_manager client config = ask (
      transaction_pool (record {
        task_manager = task_manager;
        client = client;
        is_validator = sdk.is_authority config.role;
        options = config.transaction_pool;
        prometheus = sdk.prometheus_registry config;
      }))

  unfoldable pub build_import_queue :
      Client
      → BlockImport
      → Configuration
      → Option Telemetry
      → TaskManager
      → Prog ServiceError ImportQueue
  build_import_queue client import config telemetry task_manager = ask (
      verifying_import_queue (record {
        client = client;
        block_import = import;
        task_manager = task_manager;
        registry = sdk.prometheus_registry config;
        telemetry = telemetry;
      }))

  unfoldable pub new_partial : Configuration → Prog ServiceError Service
  unfolding build_pool build_import_queue executor
  new_partial config = do
    telemetry ← connect_telemetry (without_empty config.telemetry_endpoints)
    parts ←
        ask (
          full_parts_record_import config (map_some telemetry_of telemetry)
            (executor config.executor) true)
        >>= or_fail ServiceError.sdk
    let worker = map_some worker_of telemetry
    telemetry' ← run_worker parts.task_manager telemetry
    pool ← build_pool parts.task_manager parts.client config
    import ← ask (block_import parts.client parts.backend)
    queue ← build_import_queue parts.client import config telemetry' parts.task_manager
    ret (record {
      client = parts.client;
      backend = parts.backend;
      import_queue = queue;
      keystore_container = parts.keystore_container;
      task_manager = parts.task_manager;
      transaction_pool = pool;
      select_chain = tt;
      other = (import, telemetry', worker);
    })

  -- `dev::new_partial`; `LongestChain::new(backend)` is known by its backend.
  unfoldable pub dev_new_partial : Configuration → Prog ServiceError DevService
  unfolding build_pool
  dev_new_partial config = do
    telemetry ← connect_telemetry (without_empty config.telemetry_endpoints)
    parts ←
        ask (full_parts config (map_some telemetry_of telemetry) config.executor)
        >>= or_fail ServiceError.sdk
    telemetry' ← run_worker parts.task_manager telemetry
    queue ←
        ask (
          manual_seal_import_queue parts.client parts.task_manager (sdk.prometheus_registry config))
    pool ← build_pool parts.task_manager parts.client config
    ret (record {
      client = parts.client;
      backend = parts.backend;
      import_queue = queue;
      keystore_container = parts.keystore_container;
      task_manager = parts.task_manager;
      transaction_pool = pool;
      select_chain = parts.backend;
      other = telemetry';
    })
