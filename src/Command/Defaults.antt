-- ===== src/Command/Defaults.antt =====
-- node/src/command.rs: what `run` sets where the command line is silent, and what the relay chain
-- falls back on.
use ink_node.Base.{
  ℕ, String, ◌≡◌, ◌≢◌, refl, ap, Option, none, some, List, [], ◌∷◌, Bool, true, good, bad, map_some,
}
use ink_node.Sdk.{Sdk, RunCmd, RelayChainCli, Configuration, Extensions}
use ink_node.Sdk
use ink_node.Prog.{Env, run, ok}
use ink_node.Cli.{Cli, new_relay_chain_cli, try_get, relay_chain_of}
use ink_node.Command.Settings.{force_dev, default_filter, with_defaults}
use ink_node.Command.RelayChain.{RelayRunCmd, base_path, chain_id}

-- What the settings of a command line are once `run` has gone over them.
pub record IsSettled (before after : RunCmd) : Type 0 where
  pub forced : before.chain ≡ none → after.dev ≡ true
  pub kept : (c : String) → before.chain ≡ some c → after.dev ≡ before.dev
  pub filtered :
      before.log ≡ []
      → after.log ≡ "runtime::contracts=debug" ∷ "sc_cli=info" ∷ "sc_rpc_server=info" ∷ "warn" ∷ []
  pub same_filter : before.log ≢ [] → after.log ≡ before.log
  pub same_chain : after.chain ≡ before.chain

of_parts : Option String → Bool → List String → ℕ → RunCmd
of_parts c d l n = record { chain = c; dev = d; log = l; rest = n }

settle-IsSettled :
    (c : Option String) (d : Bool) (l : List String) (n : ℕ)
    → let r = of_parts c d l n in
      let after = default_filter (force_dev r) in
      IsSettled r after × (default_filter (force_dev after) ≡ after)
unfolding of_parts force_dev default_filter
settle-IsSettled none d [] n = (
  record {
    forced = λ _. refl;
    kept = λ x e. cc;
    filtered = λ _. refl;
    same_filter = λ n. absurd (n refl);
    same_chain = refl;
  },
  refl,
)
settle-IsSettled none d (x ∷ xs) n = (
  record {
    forced = λ _. refl;
    kept = λ x e. cc;
    filtered = λ e. cc;
    same_filter = λ _. refl;
    same_chain = refl;
  },
  refl,
)
settle-IsSettled (some c) d [] n = (
  record {
    forced = λ e. cc;
    kept = λ x e. refl;
    filtered = λ _. refl;
    same_filter = λ n. absurd (n refl);
    same_chain = refl;
  },
  refl,
)
settle-IsSettled (some c) d (x ∷ xs) n = (
  record {
    forced = λ e. cc;
    kept = λ x e. refl;
    filtered = λ e. cc;
    same_filter = λ _. refl;
    same_chain = refl;
  },
  refl,
)

-- Before the subcommand is looked at, a command line without a chain is put into development mode
-- and one with a chain keeps its mode; a log filter that was given is kept, and where there is none
-- it becomes `runtime::contracts=debug`, `sc_cli=info`, `sc_rpc_server=info` and `warn`, in this
-- order; the chain stays; and a second pass would change nothing.
pub with_defaults-IsSettled :
    (cli : Cli)
    → IsSettled cli.run (with_defaults cli).run
      × (with_defaults (with_defaults cli) ≡ with_defaults cli)
unfolding with_defaults of_parts
with_defaults-IsSettled cli =
    let r = cli.run in
    let s = settle-IsSettled r.chain r.dev r.log r.rest in
    (s.0, ap (λ run. record cli { run = run }) s.1)

-- The relay chain's base path and chain identifier: the ones that its own command line gives, and
-- else, for a base path that is missing or an identifier that is empty, the `polkadot` directory
-- below the parachain's base path and the relay chain that the parachain's specification names. An
-- error of the relay chain's command line is passed on.
new_relay_chain_cli-fallback :
    (sdk : Sdk) (E : Type 0) (env : Env) (config : Configuration) (args : List String)
    (r : RelayRunCmd) (is_dev : Bool)
    → (cli : RelayChainCli) × ((run env [] (new_relay_chain_cli sdk {E = E} config args)).1
        ≡ ok cli)
      × ((e : String) → r.base_path cli.base ≡ bad e → base_path r cli ≡ bad e)
      × ((p : String) → r.base_path cli.base ≡ good (some p) → base_path r cli ≡ good (some p))
      × (r.base_path cli.base ≡ good none
          → base_path r cli ≡ good (some (sdk.join config.base_path "polkadot")))
      × ((e : String) → r.chain_id cli.base is_dev ≡ bad e → chain_id r cli is_dev ≡ bad e)
      × (r.chain_id cli.base is_dev ≡ good ""
          → (x : Extensions) → try_get sdk config.chain_spec ≡ some x
          → chain_id r cli is_dev ≡ good x.relay_chain)
unfolding new_relay_chain_cli base_path chain_id try_get
new_relay_chain_cli-fallback sdk E env config args r is_dev = (
  record {
    base_path = some (sdk.join config.base_path "polkadot");
    chain_id = map_some relay_chain_of (try_get sdk config.chain_spec);
    base = env [] (Sdk.parse_relay_args args);
  },
  refl,
  λ e h. rw (h, base_path) refl,
  λ p h. rw (h, base_path) refl,
  λ h. rw (h, base_path) refl,
  λ e h. rw (h, chain_id) refl,
  λ h x same. rw (h, same, chain_id) refl,
)
