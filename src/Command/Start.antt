-- ===== src/Command/Start.antt =====
-- node/src/command.rs: which node a command line without a subcommand starts, and its steps.
use ink_node.Base.{
  ℕ, String, Bool, true, false, Option, none, some, not, List, [], ◌∷◌, ◌++◌, ◌&&◌, ◌≡◌, refl,
  str_eq, is_some, ltb, if◌then◌else◌,
}
use ink_node.Sdk.{Sdk, Configuration}
use ink_node.Prog.{Env}
use ink_node.Prog.Trace.{
  Kind, Follows, Follows-bind, Follows-or_fail, Follows-ok_or, Follows-last, Follows-map_err,
  Follows-if, Refines, Follows-Refines,
}
use ink_node.Service.Partial.{without_empty}
use ink_node.Service.Schedule.{parachain_schedule, dev_parachain_schedule, development_schedule}
use ink_node.Service.Start.Parachain.{start_parachain_node-Follows}
use ink_node.Service.Start.DevParachain.{start_dev_parachain_node-Follows}
use ink_node.Service.Start.Development.{new_full-Follows}
use ink_node.Cli.{Cli}
use ink_node.Command.Node.{hardware_benchmark, relay_chain_config, run_parachain, start_node}

abbrev pub measuring : Bool → List Kind
measuring database = if database then Kind.make_directory ∷ Kind.measure_hardware ∷ [] else []

-- The steps of `start_node`. A benchmark is made wherever there is a database, and reported unless
-- the flag forbids it.
abbrev pub start_schedule : Sdk → Cli → Configuration → List Kind
start_schedule sdk cli config =
    let c = sdk.prepare_node_config config in
    if str_eq config.chain_spec.name "Development"
    then development_schedule (is_some (without_empty config.telemetry_endpoints))
        config.offchain_worker
    else if cli.instant_seal
    then dev_parachain_schedule (is_some (without_empty config.telemetry_endpoints))
        config.offchain_worker (ltb 0 cli.finalize_delay_sec)
    else (measuring (is_some config.database)
        ++ ((Kind.parse_relay_args ∷ Kind.make_relay_config ∷ [])
            ++ parachain_schedule (is_some (without_empty c.telemetry_endpoints)) c.offchain_worker
                (is_some config.database && not cli.no_hardware_benchmarks)
                (sdk.is_authority c.role)))

hardware_benchmark-Follows :
    (flag : Bool) (path : Option String)
    → Follows
        (λ o. is_some o ≡ (is_some path && not flag))
        (measuring (is_some path))
        (hardware_benchmark flag path)
unfolding hardware_benchmark
hardware_benchmark-Follows flag none =
    elim flag as (λ f. Follows (λ o. is_some o ≡ (false && not f)) [] (hardware_benchmark f none)) [
      | true ↦ (refl, refl)
      | false ↦ (refl, refl)
    ]
hardware_benchmark-Follows true (some path) = (refl, λ _. (refl, λ bench. (refl, refl)))
hardware_benchmark-Follows false (some path) = (refl, λ _. (refl, λ bench. (refl, refl)))

module _ (sdk : Sdk) where
  run_parachain-Follows :
      (cli : Cli) (options : ℕ) (config : Configuration)
      → let c = sdk.prepare_node_config config in
        Follows
          (λ _. Unit {0})
          (measuring (is_some config.database)
            ++ ((Kind.parse_relay_args ∷ Kind.make_relay_config ∷ [])
                ++ parachain_schedule
                    (is_some (without_empty c.telemetry_endpoints))
                    c.offchain_worker
                    (is_some config.database && not cli.no_hardware_benchmarks)
                    (sdk.is_authority c.role)))
          (run_parachain sdk cli options config)
  unfolding run_parachain relay_chain_config
  run_parachain-Follows cli options config =
      Follows-bind _ _ _ _ _ _
        (hardware_benchmark-Follows cli.no_hardware_benchmarks config.database)
        λ hw e.
          Follows-ok_or _ _ _ _
            (λ ext. (
              refl,
              λ base. (
                refl,
                Follows-or_fail _ _ _ _ λ polkadot. rw (← e) (
                    Follows-last _ _ _ _ _
                      (Follows-map_err _ _ _ _
                        (start_parachain_node-Follows sdk config polkadot options ext.para_id hw))
                      λ started _. (refl, tt)),
              ),
            ))
            (sdk.get_extension config.chain_spec.extensions)

  pub start_node-Follows :
      (cli : Cli) (options : ℕ) (config : Configuration)
      → Follows (λ _. Unit {0}) (start_schedule sdk cli config) (start_node sdk cli options config)
  unfolding start_node
  start_node-Follows cli options config =
      Follows-if _ (str_eq config.chain_spec.name "Development") _ _ _ _
        (Follows-map_err _ _ _ _ (new_full-Follows sdk config cli.finalize_delay_sec))
        (Follows-if _ cli.instant_seal _ _ _ _
          (Follows-map_err _ _ _ _ (start_dev_parachain_node-Follows sdk config _))
          (run_parachain-Follows cli options config))

  -- A command line without a subcommand takes the steps of the development chain's start if the
  -- specification is named "Development", else those of the start with instant seal if that is
  -- asked for, else those of a parachain node's start, after a benchmark wherever there is a
  -- database and the settings of the relay chain; it takes them in that order, stops early only
  -- by an error or a panic, and ends well only after all of them. The flag against benchmarks
  -- decides only whether the benchmark is shown.
  pub start_node-Refines :
      (env : Env) (cli : Cli) (options : ℕ) (config : Configuration)
      → Refines env (start_node sdk cli options config) (start_schedule sdk cli config)
  start_node-Refines env cli options config =
      Follows-Refines (λ _. Unit {0}) env _ _ (start_node-Follows cli options config)
