-- ===== src/Command/RelayChain.antt =====
-- node/src/command.rs: the settings that the relay chain's command line falls back on
-- (`impl CliConfiguration for RelayChainCli`, `impl DefaultConfigurationValues for RelayChainCli`).
use ink_node.Base.{
  ℕ, String, Option, none, some, Bool, Fallible, good, bad, str_eq, unwrap_or, if◌then◌else◌,
}
use ink_node.Sdk.{RelayChainCli}

abbrev pub p2p_listen_port : ℕ
p2p_listen_port = 30334

abbrev pub rpc_listen_port : ℕ
rpc_listen_port = 9945

abbrev pub prometheus_listen_port : ℕ
prometheus_listen_port = 9616

-- What the relay chain's own `RunCmd` answers: its base path, and the chain for a development flag.
pub record RelayRunCmd : Type 0 where
  pub base_path : ℕ → Fallible (Option String)
  pub chain_id : ℕ → Bool → Fallible String

-- `base_path`: the explicit one, and else the one below the parachain's.
unfoldable pub base_path : RelayRunCmd → RelayChainCli → Fallible (Option String)
base_path r cli = elim (r.base_path cli.base) [
  | bad e ↦ bad e
  | good none ↦ good cli.base_path
  | good (some p) ↦ good (some p)
]

-- `chain_id`: the explicit one, and else the one of the parachain's specification.
unfoldable pub chain_id : RelayRunCmd → RelayChainCli → Bool → Fallible String
chain_id r cli is_dev = elim (r.chain_id cli.base is_dev) [
  | bad e ↦ bad e
  | good c ↦ good (if str_eq c "" then unwrap_or "" cli.chain_id else c)
]
