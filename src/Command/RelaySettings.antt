-- ===== src/Command/RelaySettings.antt =====
-- node/src/command.rs: what the SDK asks of a command line (`SubstrateCli` and `CliConfiguration`),
-- for the node and for the relay chain, whose command line wraps a `RunCmd`.
use ink_node.Base.{ℕ, String, Option, Bool, Fallible}
use ink_node.Sdk.{Role, ChainSpec, Sdk, Endpoints, RelayChainCli}
use ink_node.Prog.{Prog, abort}
use ink_node.Service.Errors.{CliError}
use ink_node.Command.Settings.{load_spec}
use ink_node.Command.RelayChain.{RelayRunCmd, base_path, chain_id}

-- `SubstrateCli`.
pub record SubstrateCli : Type 0 where
  pub impl_name : String
  pub impl_version : String
  pub description : String
  pub author : String
  pub support_url : String
  pub copyright_start_year : ℕ
  pub load_spec : String → Prog String ChainSpec

-- What the build sets.
pub record BuildTexts : Type 0 where
  pub impl_version : String
  pub pkg_description : String
  pub pkg_authors : String

abbrev pub node_cli : Sdk → BuildTexts → SubstrateCli
node_cli sdk build = record {
  impl_name = "ink! node";
  impl_version = build.impl_version;
  description = build.pkg_description;
  author = build.pkg_authors;
  support_url = "https://github.com/use-ink/ink-node/issues/new";
  copyright_start_year = 2021;
  load_spec = load_spec sdk;
}

-- `polkadot_cli::Cli::from_iter(…).load_spec` is given the name of the executable.
abbrev pub relay_chain_cli :
    (String → String → Prog String ChainSpec) → Sdk → BuildTexts → SubstrateCli
relay_chain_cli polkadot_load_spec sdk build = record {
  impl_name = "ink! node";
  impl_version = build.impl_version;
  description = build.pkg_description;
  author = build.pkg_authors;
  support_url = "https://github.com/use-ink/ink-node/issues/new";
  copyright_start_year = 2020;
  load_spec = polkadot_load_spec sdk.executable_name;
}

-- `CliConfiguration`, its answers as they are or as functions of what they are asked with;
-- parameters, addresses and options of the SDK are numbers. `provided` stands for the answers of the
-- methods that the source does not write, which the trait provides.
pub record CliConfiguration : Type 0 where
  pub shared_params : ℕ
  pub import_params : Option ℕ
  pub network_params : Option ℕ
  pub keystore_params : Option ℕ
  pub base_path : Fallible (Option String)
  pub rpc_addr : ℕ → Fallible (Option ℕ)
  pub prometheus_config : ℕ → ChainSpec → Fallible (Option ℕ)
  pub init : String → String → Prog CliError Unit
  pub chain_id : Bool → Fallible String
  pub role : Bool → Fallible Role
  pub transaction_pool : Bool → Fallible ℕ
  pub trie_cache_maximum_size : Fallible (Option ℕ)
  pub rpc_methods : Fallible ℕ
  pub rpc_max_connections : Fallible ℕ
  pub rpc_cors : Bool → Fallible (Option ℕ)
  pub default_heap_pages : Fallible (Option ℕ)
  pub force_authoring : Fallible Bool
  pub disable_grandpa : Fallible Bool
  pub max_runtime_instances : Fallible (Option ℕ)
  pub announce_block : Fallible Bool
  pub telemetry_endpoints : ChainSpec → Fallible (Option Endpoints)
  pub node_name : Fallible String
  pub provided : ℕ

-- The wrapped command's base path and chain, as the relay chain's own settings ask for them.
abbrev wrapped : (ℕ → Fallible (Option String)) → CliConfiguration → RelayRunCmd
wrapped shared_base_path w = record {
  base_path = λ _. shared_base_path w.shared_params;
  chain_id = λ _ is_dev. w.chain_id is_dev;
}

-- `impl CliConfiguration for RelayChainCli`, for the wrapped command's answers and the base path of
-- shared parameters. What the trait provides is not asked of the wrapped command.
unfoldable relay_settings :
    (ℕ → Fallible (Option String)) → ℕ → CliConfiguration → RelayChainCli → CliConfiguration
relay_settings shared_base_path provided w cli = record {
  shared_params = w.shared_params;
  import_params = w.import_params;
  network_params = w.network_params;
  keystore_params = w.keystore_params;
  base_path = base_path (wrapped shared_base_path w) cli;
  rpc_addr = λ default_listen_port. w.rpc_addr default_listen_port;
  prometheus_config =
      λ default_listen_port chain_spec. w.prometheus_config default_listen_port chain_spec;
  init = λ _ _. abort "PolkadotCli is never initialized; qed";
  chain_id = λ is_dev. chain_id (wrapped shared_base_path w) cli is_dev;
  role = λ is_dev. w.role is_dev;
  transaction_pool = λ is_dev. w.transaction_pool is_dev;
  trie_cache_maximum_size = w.trie_cache_maximum_size;
  rpc_methods = w.rpc_methods;
  rpc_max_connections = w.rpc_max_connections;
  rpc_cors = λ is_dev. w.rpc_cors is_dev;
  default_heap_pages = w.default_heap_pages;
  force_authoring = w.force_authoring;
  disable_grandpa = w.disable_grandpa;
  max_runtime_instances = w.max_runtime_instances;
  announce_block = w.announce_block;
  telemetry_endpoints = λ chain_spec. w.telemetry_endpoints chain_spec;
  node_name = w.node_name;
  provided = provided;
}
