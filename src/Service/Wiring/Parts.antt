-- ===== src/Service/Wiring/Parts.antt =====
-- One client, backend, keystore, transaction pool and task manager for a whole node: what it means
-- for a call and its reply to be wired to them.
use ink_node.Base.{◌≡◌, Option, none, some, good}
use ink_node.Sdk.{
  Call, Reply, Parts, Client, Backend, Keystore, TransactionPool, TaskManager, Task,
  InherentProvider,
}
use ink_node.Sdk
use ink_node.Prog.{Rely}

pub record Wires : Type 0 where
  pub client : Client
  pub backend : Backend
  pub keystore : Keystore
  pub pool : TransactionPool
  pub task_manager : TaskManager

-- The development parachain's inherents are for the node's client and come with a consensus data
-- provider that is built on it; the system's time comes with none.
abbrev InherentsWired : Wires → Option Client → InherentProvider → Type 0
InherentsWired w none Sdk.system_time = Unit
InherentsWired w (some provider) Sdk.system_time = ⊥
InherentsWired w none (Sdk.dev_inherents client para_id slot_duration) = ⊥
InherentsWired w (some provider) (Sdk.dev_inherents client para_id slot_duration) =
    (client ≡ w.client) × (provider ≡ w.client)

abbrev TaskWired : Wires → Task → Type 0
TaskWired w (Sdk.run_telemetry _) = Unit
TaskWired w (Sdk.run_offchain_workers _ client handle) =
    (client ≡ w.client) × (handle ≡ w.task_manager)
TaskWired w (Sdk.run_aura p) =
    (p.para_client ≡ w.client)
    × (p.para_backend ≡ w.backend)
    × (p.code_hash_provider ≡ w.client)
    × (p.keystore ≡ w.keystore)
    × (p.collator_service.block_status ≡ w.client)
    × (p.collator_service.spawn_handle ≡ w.task_manager)
    × (p.collator_service.runtime_api ≡ w.client)
TaskWired w (Sdk.run_instant_seal p) =
    (p.block_import ≡ w.client)
    × (p.client ≡ w.client)
    × (p.pool ≡ w.pool)
    × (p.select_chain ≡ w.backend)
    × InherentsWired w p.consensus_data_provider p.create_inherent_data_providers
TaskWired w (Sdk.run_delayed_finalize p) = (p.client ≡ w.client) × (p.spawn_handle ≡ w.task_manager)
TaskWired w (Sdk.initialize_hwbench_telemetry _ _) = Unit

-- The parts that a call names are those of the node, which are not built again.
abbrev pub Names : Wires → Call → Type 0
Names w (Call.spawn s) = (s.task_manager ≡ w.task_manager) × TaskWired w s.task
Names w (Call.full_parts_record_import _ _ _ _) = ⊥
Names w (Call.full_parts _ _ _) = ⊥
Names w (Call.transaction_pool p) = ⊥
Names w (Call.block_import client backend) = (client ≡ w.client) × (backend ≡ w.backend)
Names w (Call.verifying_import_queue p) = (p.client ≡ w.client) × (p.task_manager ≡ w.task_manager)
Names w (Call.relay_chain_interface _ _ _ tm _ _) = tm ≡ w.task_manager
Names w (Call.manual_seal_import_queue client tm _) = (client ≡ w.client) × (tm ≡ w.task_manager)
Names w (Call.proposer p) =
    (p.spawn_handle ≡ w.task_manager) × (p.client ≡ w.client) × (p.transaction_pool ≡ w.pool)
Names w (Call.spawn_tasks p) =
    (p.rpc_builder.client ≡ w.client)
    × (p.rpc_builder.pool ≡ w.pool)
    × (p.client ≡ w.client)
    × (p.transaction_pool ≡ w.pool)
    × (p.task_manager ≡ w.task_manager)
    × (p.keystore ≡ w.keystore)
    × (p.backend ≡ w.backend)
Names w (Call.network p) =
    (p.client ≡ w.client) × (p.transaction_pool ≡ w.pool) × (p.spawn_handle ≡ w.task_manager)
Names w (Call.solo_network p) =
    (p.client ≡ w.client) × (p.transaction_pool ≡ w.pool) × (p.spawn_handle ≡ w.task_manager)
Names w (Call.offchain_workers p) =
    (p.runtime_api_provider ≡ w.client)
    × (p.keystore ≡ some w.keystore)
    × (p.offchain_db ≡ w.backend)
    × (p.transaction_pool ≡ some w.pool)
Names w (Call.relay_chain_tasks p) = (p.client ≡ w.client) × (p.task_manager ≡ w.task_manager)
Names w (Call.slot_duration client) = client ≡ w.client
Names w (Call.seal_block p) =
    (p.select_chain ≡ w.backend)
    × (p.block_import ≡ w.client)
    × (p.pool ≡ w.pool)
    × (p.client ≡ w.client)
    × InherentsWired w p.consensus_data_provider p.create_inherent_data_providers
Names w (Call.header client _) = client ≡ w.client
Names w (Call.collect_collation_info client _ _) = client ≡ w.client
Names w _ = Unit

abbrev pub IsOf : Wires → Parts → Type 0
IsOf w q =
    (q.client ≡ w.client)
    × (q.backend ≡ w.backend)
    × (q.keystore_container ≡ w.keystore)
    × (q.task_manager ≡ w.task_manager)

-- The call that builds the parts, or the pool for them, gets just these as its reply, if it does not
-- fail.
abbrev pub Wired : Wires → Rely
Wired w (Call.full_parts_record_import _ _ _ _) r = (q : Parts) → r ≡ good q → IsOf w q
Wired w (Call.full_parts _ _ _) r = (q : Parts) → r ≡ good q → IsOf w q
Wired w (Call.transaction_pool p) r =
    (p.task_manager ≡ w.task_manager) × (p.client ≡ w.client) × (r ≡ w.pool)
Wired w c r = Names w c

pub Names-Wired : (w : Wires) (c : Call) (r : Reply c) → Names w c → Wired w c r
Names-Wired w (Call.full_parts_record_import _ _ _ _) r n = elim n [ ]
Names-Wired w (Call.full_parts _ _ _) r n = elim n [ ]
Names-Wired w (Call.transaction_pool _) r n = elim n [ ]
Names-Wired w (Call.telemetry_worker _) r n = n
Names-Wired w (Call.new_telemetry _ _) r n = n
Names-Wired w (Call.block_import _ _) r n = n
Names-Wired w (Call.verifying_import_queue _) r n = n
Names-Wired w (Call.manual_seal_import_queue _ _ _) r n = n
Names-Wired w (Call.proposer _) r n = n
Names-Wired w (Call.spawn _) r n = n
Names-Wired w (Call.spawn_tasks _) r n = n
Names-Wired w (Call.relay_chain_interface _ _ _ _ _ _) r n = n
Names-Wired w (Call.network _) r n = n
Names-Wired w (Call.solo_network _) r n = n
Names-Wired w (Call.offchain_workers _) r n = n
Names-Wired w (Call.overseer_handle _) r n = n
Names-Wired w (Call.relay_chain_tasks _) r n = n
Names-Wired w (Call.merge _) r n = n
Names-Wired w (Call.create_dir_all _) r n = n
Names-Wired w (Call.gather_hwbench _) r n = n
Names-Wired w (Call.print_hwbench _) r n = n
Names-Wired w (Call.check_hardware _ _) r n = n
Names-Wired w (Call.warn _) r n = n
Names-Wired w (Call.slot_duration _) r n = n
Names-Wired w (Call.seal_block _) r n = n
Names-Wired w (Call.header _ _) r n = n
Names-Wired w (Call.collect_collation_info _ _ _) r n = n
Names-Wired w (Call.create_runner _) r n = n
Names-Wired w (Call.run_command _) r n = n
Names-Wired w (Call.spec_from_file _) r n = n
Names-Wired w (Call.parse_relay_args _) r n = n
Names-Wired w (Call.relay_configuration _ _) r n = n
Names-Wired w (Call.run_until_exit _) r n = n
