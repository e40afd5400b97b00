-- ===== src/Service/Offchain.antt =====
-- The offchain workers, which node/src/service.rs and node/src/service/dev.rs start alike.
use ink_node.Base.{Bool, true, false, Option, String}
use ink_node.Sdk.{TaskManager, Client, run_offchain_workers, OffchainWorkerOptions}
use ink_node.Sdk
use ink_node.Prog.{Prog, ret, ask, or_fail, ◌>>=◌}
use ink_node.Service.Errors.{ServiceError}

-- `if config.offchain_worker.enabled { … }`, with the options that the caller fills in.
unfoldable pub start_offchain_workers :
    Bool
    → TaskManager
    → Client
    → Option String
    → OffchainWorkerOptions
    → Prog ServiceError (Unit {0})
start_offchain_workers false task_manager client group options = ret tt
start_offchain_workers true task_manager client group options = do
  workers ← ask (Sdk.offchain_workers options) >>= or_fail ServiceError.sdk
  ask (
      Sdk.spawn (record {
        task_manager = task_manager;
        essential = false;
        blocking = false;
        name = "offchain-workers-runner";
        group = group;
        task = run_offchain_workers workers client task_manager;
      }))
