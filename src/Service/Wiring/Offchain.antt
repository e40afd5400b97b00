-- ===== src/Service/Wiring/Offchain.antt =====
-- The parts of a node, and the offchain workers, which every start wires alike.
use ink_node.Base.{refl, String, Bool, true, false, Option}
use ink_node.Sdk.{Call, TransactionPool, Parts, OffchainWorkerOptions}
use ink_node.Prog.Always.{Always, Always-or_fail}
use ink_node.Service.Partial.{PartialComponents}
use ink_node.Service.Offchain.{start_offchain_workers}
use ink_node.Service.Wiring.Parts.{Wires, Names}

abbrev pub wires_of : {S O : Type 0} → PartialComponents S O → Wires
wires_of p = record {
  client = p.client;
  backend = p.backend;
  keystore = p.keystore_container;
  pool = p.transaction_pool;
  task_manager = p.task_manager;
}

abbrev pub wires : Parts → TransactionPool → Wires
wires p pool = record {
  client = p.client;
  backend = p.backend;
  keystore = p.keystore_container;
  pool = pool;
  task_manager = p.task_manager;
}

pub start_offchain_workers-Always :
    (w : Wires) (enabled : Bool) (group : Option String) (options : OffchainWorkerOptions)
    → Names w (Call.offchain_workers options)
    → Always (Names w) (start_offchain_workers enabled w.task_manager w.client group options)
unfolding start_offchain_workers
start_offchain_workers-Always w false group options h = tt
start_offchain_workers-Always w true group options h =
    (h, Always-or_fail _ _ _ λ workers. ((refl, (refl, refl)), λ _. tt))
