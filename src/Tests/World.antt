-- ===== src/Tests/World.antt =====
-- A concrete SDK, with an environment in which only the check of the hardware fails, and a
-- configuration.
use ink_node.Base.{ℕ, ◌+◌, String, ◌<>◌, Bool, true, false, Option, none, some, [], ◌∷◌, good, bad}
use ink_node.Sdk.{
  Sdk, Call, Role, authority, full, Configuration, ChainSpec, Extensions, local, Network, Parts,
  RunCmd, Header,
}
use ink_node.Sdk.Json.{num, obj, end}
use ink_node.Prog.{Env}
use ink_node.Cli.{Cli}

abbrev pub authoritative : Role → Bool
authoritative authority = true
authoritative full = false

abbrev pub registry_of : Configuration → Option ℕ
registry_of config = config.prometheus_config

abbrev pub keep_config : Configuration → Configuration
keep_config config = config

abbrev pub keep_extension : Option Extensions → Option Extensions
keep_extension o = o

abbrev pub keep_run : RunCmd → RunCmd
keep_run r = r

abbrev pub options_of : RunCmd → ℕ
options_of r = r.rest

abbrev pub join_path : String → String → String
join_path a b = a <> "/" <> b

abbrev pub key_of : String → Option ℕ
key_of seed = some 7

abbrev pub account_of_key : ℕ → ℕ
account_of_key k = k + 100

abbrev pub test_sdk : Sdk
test_sdk = record {
  is_authority = authoritative;
  prometheus_registry = registry_of;
  prepare_node_config = keep_config;
  get_extension = keep_extension;
  normalize = keep_run;
  collator_options = options_of;
  executable_name = "ink-node";
  join = join_path;
  public_from_string = key_of;
  into_account = account_of_key;
  account_json = num;
  aura_json = num;
  wasm_binary = some 1;
  dev_wasm_binary = some 2;
  xcm_version = 5;
}

abbrev pub test_spec : ChainSpec
test_spec = record {
  name = "Local Testnet";
  id = "local_testnet";
  chain_type = local;
  wasm = 1;
  extensions = some (record { relay_chain = "rococo-local"; para_id = 1000 });
  genesis_config_patch = obj end;
  protocol_id = some "ink-local";
  properties = end;
}

abbrev pub test_config : Configuration
test_config = record {
  telemetry_endpoints = some ("wss://telemetry" ∷ []);
  executor = record {
    wasm_method = 1;
    default_heap_pages = some 2048;
    max_runtime_instances = 8;
    runtime_cache_size = 2;
  };
  role = authority;
  transaction_pool = 3;
  prometheus_config = some 4;
  network = record { in_peers = 32; out_peers = 8; peers = 5 };
  offchain_worker = true;
  chain_spec = test_spec;
  database = some "/data/db";
  base_path = "/data";
  tokio_handle = 6;
}

abbrev pub test_run : RunCmd
test_run = record { chain = none; dev = false; log = []; rest = 9 }

abbrev pub test_cli : Cli
test_cli = record {
  subcommand = none;
  run = test_run;
  no_hardware_benchmarks = true;
  relay_chain_args = "--dev" ∷ [];
  finalize_delay_sec = 1;
  instant_seal = false;
}

abbrev pub test_parts : Parts
test_parts = record { client = 10; backend = 11; keystore_container = 12; task_manager = 13 }

abbrev pub test_network : Network
test_network = record {
  network = 20;
  system_rpc_tx = 21;
  tx_handler_controller = 22;
  sync_service = 23;
}

abbrev pub test_head : Header
test_head = record { number = 41; encoded = 1 ∷ 2 ∷ [] }

-- Every call succeeds but the check of the hardware.
abbrev pub test_env : Env
test_env h (Call.telemetry_worker _) = good 30
test_env h (Call.new_telemetry _ _) = 31
test_env h (Call.full_parts_record_import _ _ _ _) = good test_parts
test_env h (Call.full_parts _ _ _) = good test_parts
test_env h (Call.transaction_pool _) = 32
test_env h (Call.block_import _ _) = 33
test_env h (Call.verifying_import_queue _) = 34
test_env h (Call.manual_seal_import_queue _ _ _) = 35
test_env h (Call.proposer _) = 36
test_env h (Call.spawn _) = tt
test_env h (Call.spawn_tasks _) = good tt
test_env h (Call.relay_chain_interface _ _ _ _ _ _) = good (37, some 38)
test_env h (Call.network _) = good test_network
test_env h (Call.solo_network _) = good test_network
test_env h (Call.offchain_workers _) = good 39
test_env h (Call.overseer_handle _) = good 40
test_env h (Call.relay_chain_tasks _) = good tt
test_env h (Call.merge _) = good tt
test_env h (Call.create_dir_all _) = good tt
test_env h (Call.gather_hwbench _) = 41
test_env h (Call.print_hwbench _) = tt
test_env h (Call.check_hardware _ _) = bad "too slow"
test_env h (Call.warn _) = tt
test_env h (Call.slot_duration _) = good 6000
test_env h (Call.seal_block _) = tt
test_env h (Call.header _ _) = good (some test_head)
test_env h (Call.collect_collation_info _ _ _) = good none
test_env h (Call.create_runner _) = good test_config
test_env h (Call.run_command _) = good tt
test_env h (Call.spec_from_file _) = good test_spec
test_env h (Call.parse_relay_args _) = 42
test_env h (Call.relay_configuration _ _) = good test_config
test_env h (Call.run_until_exit _) = good tt

-- The header of block 41 for hash 41, and so on; no new code is pending.
abbrev pub numbered_env : Env
numbered_env h (Call.header _ n) = good (some (record { number = n; encoded = [] }))
numbered_env h c = test_env h c
