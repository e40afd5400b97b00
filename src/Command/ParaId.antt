-- ===== src/Command/ParaId.antt =====
-- node/src/command.rs and node/src/service.rs: the start of a node whose specification names no
-- parachain.
use ink_node.Base.{◌≡◌, ℕ, true, false, none, some, [], str_eq, good, bad}
use ink_node.Sdk.{Sdk, Configuration}
use ink_node.Prog.{Env, run}
use ink_node.Service.Offchain.{start_offchain_workers}
use ink_node.Prog.Trace.{IsOk}
use ink_node.Prog.Fails.{
  Fails, Fails-run, Fails-bind, Fails-or_fail, Fails-ok_or, Fails-map_err, Fails-if,
}
use ink_node.Service.Partial.{connect_telemetry, run_worker, without_empty}
use ink_node.Service.DevParachain.{run_dev_parachain_node, start_dev_parachain_node}
use ink_node.Cli.{Cli, try_get}
use ink_node.Command.Node.{hardware_benchmark, run_parachain, start_node}

module _ (sdk : Sdk) where
  start_dev_parachain_node-Fails :
      (config : Configuration) (delay : ℕ)
      → sdk.get_extension config.chain_spec.extensions ≡ none
      → Fails (start_dev_parachain_node sdk config delay)
  unfolding start_dev_parachain_node run_dev_parachain_node
  start_dev_parachain_node-Fails config delay missing =
      Fails-bind (connect_telemetry (without_empty config.telemetry_endpoints)) _ λ o.
        Fails-or_fail _ _ λ parts. Fails-bind (run_worker parts.task_manager o) _ λ t. λ pool.
          λ queue. Fails-or_fail _ _ λ network.
            Fails-bind
              (start_offchain_workers config.offchain_worker parts.task_manager parts.client
                (some "offchain-work")
                (record {
                  runtime_api_provider = parts.client;
                  keystore = some parts.keystore_container;
                  offchain_db = parts.backend;
                  transaction_pool = some pool;
                  network_provider = network;
                  is_validator = sdk.is_authority config.role;
                  enable_http_requests = true;
                }))
              _ λ workers. λ proposer. elim [ bad _ ↦ tt | good d ↦ Fails-ok_or _ _ _ missing ]

  run_parachain-Fails :
      (cli : Cli) (options : ℕ) (config : Configuration)
      → sdk.get_extension config.chain_spec.extensions ≡ none
      → Fails (run_parachain sdk cli options config)
  unfolding run_parachain try_get
  run_parachain-Fails cli options config missing =
      Fails-bind (hardware_benchmark cli.no_hardware_benchmarks config.database) _
        λ bench. Fails-ok_or _ _ _ missing

  -- A command line without a subcommand never ends well, with an error or a panic instead, if the
  -- specification is not named "Development" and names no parachain, with instant seal or without.
  pub start_node-fails :
      (env : Env) (cli : Cli) (options : ℕ) (config : Configuration)
      → str_eq config.chain_spec.name "Development" ≡ false
      → sdk.get_extension config.chain_spec.extensions ≡ none
      → ¬ IsOk (run env [] (start_node sdk cli options config)).1
  unfolding start_node
  start_node-fails env cli options config other missing =
      Fails-run env [] (start_node sdk cli options config) (
        rw other (
          Fails-if cli.instant_seal _ _
            (Fails-map_err _ _
              (start_dev_parachain_node-Fails config cli.finalize_delay_sec missing))
            (run_parachain-Fails cli options config missing)))
