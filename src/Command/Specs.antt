-- ===== src/Command/Specs.antt =====
-- node/src/command.rs: `load_spec` and the node that a built-in specification starts.
use ink_node.Base.{ℕ, String, ◌≡◌, refl, ap₂, ◌⊎◌, inl, inr}
use ink_node.Sdk.{Sdk, ChainSpec, Configuration}
use ink_node.Prog.{Prog, Env, History, Outcome, run, ok, map_err}
use ink_node.Prog.Ends.{Ends, Ends-run, IsSome}
use ink_node.Prog.Quiet.{IsQuiet, IsQuiet-run}
use ink_node.ChainSpec.Success.{Derives, development_config-Ends, local_testnet_config-Ends}
use ink_node.ChainSpec.Genesis.{
  IsDevelopment, IsLocal, development_config-IsQuiet, local_testnet_config-IsQuiet,
}
use ink_node.Service.Errors.{CliError}
use ink_node.Service.Development.{new_full}
use ink_node.Cli.{Cli}
use ink_node.Command.Settings.{load_spec}
use ink_node.Command.Node.{start_node}

module _ (sdk : Sdk) where
  load_spec-IsQuiet_dev :
      (id : String) → (id ≡ "") ⊎ (id ≡ "dev") → IsQuiet IsDevelopment (load_spec sdk id)
  unfolding load_spec
  load_spec-IsQuiet_dev id (inl e) = rw e (development_config-IsQuiet sdk String)
  load_spec-IsQuiet_dev id (inr e) = rw e (development_config-IsQuiet sdk String)

  load_spec-IsQuiet_testnet : IsQuiet IsLocal (load_spec sdk "ink-parachain-local")
  unfolding load_spec
  load_spec-IsQuiet_testnet = local_testnet_config-IsQuiet sdk String

  -- What makes no call, ends well and yields only specifications of a kind.
  made :
      (P : ChainSpec → Type 0) (m : Prog String ChainSpec) (env : Env) (h : History)
      → IsQuiet P m
      → Ends (λ c r. Unit {0}) (λ _. Unit {0}) m
      → (spec : ChainSpec) × (run env h m ≡ (h, ok spec)) × P spec
  made P m env h quiet ends =
      let q = IsQuiet-run env h quiet in
      let e = Ends-run (λ c r. Unit {0}) (λ _. Unit {0}) env h m (λ g c. tt) ends in
      (e.0, ap₂ (λ (g : History) (o : Outcome String ChainSpec). (g, o)) q.0 e.1, q.1 e.0 e.1)

  load_spec-Ends_dev :
      (id : String)
      → (id ≡ "") ⊎ (id ≡ "dev")
      → Derives sdk
      → IsSome sdk.dev_wasm_binary
      → Ends (λ c r. Unit {0}) (λ _. Unit {0}) (load_spec sdk id)
  unfolding load_spec
  load_spec-Ends_dev id (inl e) derives built =
      rw e (development_config-Ends (λ c r. Unit {0}) sdk String derives built)
  load_spec-Ends_dev id (inr e) derives built =
      rw e (development_config-Ends (λ c r. Unit {0}) sdk String derives built)

  load_spec-Ends_testnet :
      Derives sdk
      → IsSome sdk.wasm_binary
      → Ends (λ c r. Unit {0}) (λ _. Unit {0}) (load_spec sdk "ink-parachain-local")
  unfolding load_spec
  load_spec-Ends_testnet = local_testnet_config-Ends (λ c r. Unit {0}) sdk String

  -- If the development runtime was built and keys can be derived from seeds, without an
  -- identifier, or with `dev`, a specification is made, without any call of the SDK that acts or can
  -- fail. Its balances, none below the existential deposit, add up to twelve endowments, the account
  -- of the sudo key holds one of them, and a configuration that carries the specification starts
  -- the development chain, whatever the other options say.
  pub load_spec-start_node :
      (env : Env) (h : History) (id : String)
      → (id ≡ "") ⊎ (id ≡ "dev")
      → Derives sdk
      → IsSome sdk.dev_wasm_binary
      → (spec : ChainSpec) × (run env h (load_spec sdk id) ≡ (h, ok spec))
        × IsDevelopment spec
        × ((cli : Cli) (options : ℕ) (config : Configuration)
            → config.chain_spec ≡ spec
            → start_node sdk cli options config
              ≡ map_err CliError.service (new_full sdk config cli.finalize_delay_sec))
  unfolding start_node
  load_spec-start_node env h id e derives built =
      let s =
        made IsDevelopment (load_spec sdk id) env h (load_spec-IsQuiet_dev id e)
          (load_spec-Ends_dev id e derives built) in
      (s.0, s.1, s.2, λ cli options config same. rw (same, s.2.named) refl)

  -- If the parachain's runtime was built and keys can be derived from seeds, with
  -- `ink-parachain-local` a specification is made, without any call of the SDK that acts or can
  -- fail. Its extension and its genesis state name the same parachain, exactly the invulnerable
  -- collators have session keys, in the same order, they are two, no more than the runtime allows,
  -- they and the account of the sudo key hold balances, and the balances, none below the existential
  -- deposit, add up to twelve endowments.
  pub load_spec-IsLocal :
      (env : Env) (h : History)
      → Derives sdk
      → IsSome sdk.wasm_binary
      → (spec : ChainSpec) × (run env h (load_spec sdk "ink-parachain-local") ≡ (h, ok spec))
        × IsLocal spec
  load_spec-IsLocal env h derives built =
      made IsLocal (load_spec sdk "ink-parachain-local") env h load_spec-IsQuiet_testnet
        (load_spec-Ends_testnet derives built)
