-- ===== src/Command/Success.antt =====
-- node/src/command.rs: a command line without a subcommand, with an SDK whose calls succeed.
use ink_node.Base.{
  ℕ, ◌≡◌, refl, ap, sym, subst, ◌∙◌, String, Bool, true, Option, none, some, List, [], ◌∷◌, ◌++◌,
  ◌⊎◌, inl, inr, Fallible, good, bad, str_eq,
}
use mathlib.Core.List.{append-nil}
use ink_node.Sdk.{Sdk, Call, Reply, RunnerSource, Configuration, TaskManager, of_run}
use ink_node.Sdk
use ink_node.Prog.{Env, History, run, ok, or_fail, ask, ◌>>=◌}
use ink_node.Prog.Trace.{Kind, trace, IsOk, Refines_from}
use ink_node.Prog.Ends.{
  Ends, Ends-run, Ends-bind, Ends-or_fail, Ends-ok_or, Ends-map_err, Ends-if, IsGood, IsSome,
  run-bind,
}
use ink_node.Service.Errors.{CliError}
use ink_node.Service.Success.{
  Succeeds, start_parachain_node-Ends, start_dev_parachain_node-Ends, new_full-Ends,
}
use ink_node.Cli.{Subcommand, Cli}
use ink_node.Command.Settings.{with_defaults}
use ink_node.Command.Node.{hardware_benchmark, relay_chain_config, run_parachain, start_node}
use ink_node.Command.Run.{dispatch, run_node, run_cli}
use ink_node.Command.Start.{start_schedule, start_node-Follows}

hardware_benchmark-Ends :
    (flag : Bool) (path : Option String)
    → Ends Succeeds (λ _. Unit {0}) (hardware_benchmark flag path)
unfolding hardware_benchmark
hardware_benchmark-Ends flag none = tt
hardware_benchmark-Ends flag (some path) = λ _ _ _ _. tt

-- Whether a node can be started from a specification: it is the development chain's, or it names a
-- parachain.
abbrev pub IsStartable : Sdk → Configuration → Type 0
IsStartable sdk config =
    (str_eq config.chain_spec.name "Development" ≡ true)
    ⊎ IsSome (sdk.get_extension config.chain_spec.extensions)

exits :
    (env : Env) (h : History) (tm : TaskManager)
    → IsGood (env h (Sdk.run_until_exit tm))
    → run env h (ask (Sdk.run_until_exit tm) >>= or_fail CliError.sdk)
      ≡ (Sdk.run_until_exit tm ∷ h, ok tt)
exits env h tm g = go (env h (Sdk.run_until_exit tm)) g
  where
    go :
        (r : Fallible (Unit {0}))
        → IsGood r
        → run env (Sdk.run_until_exit tm ∷ h) (or_fail CliError.sdk r)
          ≡ (Sdk.run_until_exit tm ∷ h, ok tt)
    go (good _) g = refl
    go (bad e) g = absurd g

module _ (sdk : Sdk) where
  run_parachain-Ends :
      (cli : Cli) (options : ℕ) (config : Configuration)
      → IsSome (sdk.get_extension config.chain_spec.extensions)
      → Ends Succeeds (λ _. Unit {0}) (run_parachain sdk cli options config)
  unfolding run_parachain relay_chain_config
  run_parachain-Ends cli options config known =
      Ends-bind Succeeds (λ _. Unit {0}) _ _ _
        (hardware_benchmark-Ends cli.no_hardware_benchmarks config.database)
        λ hw _.
          Ends-ok_or Succeeds _ _ _
            (λ ext. λ base _. Ends-or_fail _ _ _ _ λ polkadot.
              Ends-bind Succeeds (λ _. Unit {0}) _ _ _
                (Ends-map_err Succeeds (λ _. Unit {0}) _ _
                  (start_parachain_node-Ends sdk config polkadot options ext.para_id hw))
                λ started _. tt)
            (sdk.get_extension config.chain_spec.extensions) known

  start_node-Ends :
      (cli : Cli) (options : ℕ) (config : Configuration)
      → IsStartable sdk config
      → Ends Succeeds (λ _. Unit {0}) (start_node sdk cli options config)
  unfolding start_node
  start_node-Ends cli options config (inl named) =
      rw named (
        Ends-map_err Succeeds (λ _. Unit {0}) _ _ (new_full-Ends sdk config cli.finalize_delay_sec))
  start_node-Ends cli options config (inr known) =
      Ends-if Succeeds (λ _. Unit {0}) (str_eq config.chain_spec.name "Development") _ _
        (Ends-map_err Succeeds (λ _. Unit {0}) _ _
          (new_full-Ends sdk config cli.finalize_delay_sec))
        (Ends-if Succeeds (λ _. Unit {0}) cli.instant_seal _ _
          (Ends-map_err Succeeds (λ _. Unit {0}) _ _
            (start_dev_parachain_node-Ends sdk config cli.finalize_delay_sec known))
          (run_parachain-Ends cli options config known))

  -- What `run_node` does after its runner was created.
  rest_completes :
      (env : Env) (h : History) (cli : Cli) (options : ℕ) (config : Configuration)
      → ((g : History) (c : Call) → Succeeds c (env g c))
      → IsStartable sdk config
      → let r = run env h (
          start_node sdk cli options config >>= λ tm.
          ask (Sdk.run_until_exit tm) >>= or_fail CliError.sdk) in
        (r.1 ≡ ok tt)
        × (trace r.0 ≡ (trace h ++ start_schedule sdk cli config) ++ (Kind.run_until_exit ∷ []))
  rest_completes env h cli options config keeps startable =
      let m = start_node sdk cli options config in
      let ends =
        Ends-run Succeeds (λ _. Unit {0}) env h m keeps
          (start_node-Ends cli options config startable) in
      let steps =
        Refines_from (λ _. Unit {0}) env h (start_schedule sdk cli config) m
          (start_node-Follows sdk cli options config) in
      let ran = run env h m in
      let done = exits env ran.0 ends.0 (keeps ran.0 (Sdk.run_until_exit ends.0)) in
      let none_left = steps.2 (subst IsOk (sym ends.1) tt) in
      let complete =
        steps.1 ∙ ap (λ (r : List Kind). trace ran.0 ++ r) none_left ∙ append-nil (trace ran.0) in
      rw
        (run-bind env h m (λ tm. ask (Sdk.run_until_exit tm) >>= or_fail CliError.sdk) ends.0
          ends.1)
        (rw done (refl, ap (λ (r : List Kind). r ++ (Kind.run_until_exit ∷ [])) (sym complete)))

  dispatch-none :
      (features : Bool) (cli : Cli) (o : Option Subcommand)
      → o ≡ none
      → dispatch sdk features cli o ≡ run_node sdk cli
  unfolding dispatch
  dispatch-none features cli none e = refl
  dispatch-none features cli (some cmd) e = cc

  run_node_completes :
      (env : Env) (cli : Cli) (config : Configuration)
      → ((g : History) (c : Call) → Succeeds c (env g c))
      → IsStartable sdk config
      → env [] (Sdk.create_runner (of_run (sdk.normalize cli.run))) ≡ good config
      → ((run env [] (run_node sdk cli)).1 ≡ ok tt)
        × (trace (run env [] (run_node sdk cli)).0
            ≡ Kind.create_runner ∷ (start_schedule sdk cli config ++ (Kind.run_until_exit ∷ [])))
  unfolding run_node
  run_node_completes env cli config keeps startable created =
      rw (created, run)
        (rest_completes env (Sdk.create_runner (of_run (sdk.normalize cli.run)) ∷ []) cli
          (sdk.collator_options cli.run) config keeps startable)

  -- If every call that can fail succeeds, the collator's key is there, and the runner's configuration
  -- is for the development chain or for a parachain whose identifier the specification names, a
  -- command line without a subcommand is run to its end: the runner is created, all steps of the
  -- start are taken, none twice and no others, and the node runs until it exits.
  pub run_cli-completes :
      (env : Env) (features : Bool) (cli : Cli) (config : Configuration)
      → ((g : History) (c : Call) → Succeeds c (env g c))
      → cli.subcommand ≡ none
      → IsStartable sdk config
      → env [] (Sdk.create_runner (of_run (sdk.normalize (with_defaults cli).run))) ≡ good config
      → ((run env [] (run_cli sdk features cli)).1 ≡ ok tt)
        × (trace (run env [] (run_cli sdk features cli)).0
            ≡ Kind.create_runner
              ∷ (start_schedule sdk (with_defaults cli) config ++ (Kind.run_until_exit ∷ [])))
  unfolding run_cli with_defaults
  run_cli-completes env features cli config keeps no_subcommand startable created =
      rw (dispatch-none features (with_defaults cli) cli.subcommand no_subcommand)
        (run_node_completes env (with_defaults cli) config keeps startable created)
