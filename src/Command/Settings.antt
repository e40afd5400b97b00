-- ===== src/Command/Settings.antt =====
-- node/src/command.rs: `load_spec`, and what `run` sets before it looks at the subcommand.
use ink_node.Base.{String, true, Option, none, some, List, [], ◌∷◌, ◌||◌, str_eq, if◌then◌else◌}
use ink_node.Sdk.{Sdk, ChainSpec, RunCmd}
use ink_node.Sdk
use ink_node.Prog.{Prog, ask, or_fail, ◌>>=◌}
use ink_node.ChainSpec.{development_config, local_testnet_config}
use ink_node.Cli.{Cli}

abbrev pub own_error : String → String
own_error e = e

unfoldable pub load_spec : Sdk → String → Prog String ChainSpec
load_spec sdk id =
    if str_eq id "" || str_eq id "dev"
    then development_config sdk
    else if str_eq id "ink-parachain-local"
    then local_testnet_config sdk
    else (ask (Sdk.spec_from_file id) >>= or_fail own_error)

-- `if … chain.is_none() { … dev = true; }`.
unfoldable pub force_dev : RunCmd → RunCmd
force_dev r = go r.chain
  where
    go : Option String → RunCmd
    go none = record r { dev = true }
    go (some chain) = r

abbrev default_log : List String
default_log = "runtime::contracts=debug" ∷ "sc_cli=info" ∷ "sc_rpc_server=info" ∷ "warn" ∷ []

-- `if … log.is_empty() { … log = vec![…]; }`.
unfoldable pub default_filter : RunCmd → RunCmd
default_filter r = go r.log
  where
    go : List String → RunCmd
    go [] = record r { log = default_log }
    go (l ∷ ls) = r

unfoldable pub with_defaults : Cli → Cli
unfolding force_dev default_filter
with_defaults cli = record cli { run = default_filter (force_dev cli.run) }
