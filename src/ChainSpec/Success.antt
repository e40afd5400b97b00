-- ===== src/ChainSpec/Success.antt =====
-- node/src/chain_spec.rs and node/src/chain_spec/dev.rs: the specifications with a runtime that was
-- built and seeds that the SDK can derive keys from.
use ink_node.Base.{String, Option, none, some, List, [], ◌∷◌}
use ink_node.Sdk.{Sdk}
use ink_node.Prog.{expect}
use ink_node.Prog.{Rely}
use ink_node.Prog.Ends.{Ends, Ends-bind, IsSome}
use ink_node.ChainSpec.{
  get_from_seed, get_account_id_from_seed, get_collator_keys_from_seed, get_account_ids,
  get_collators, local_testnet_config, development_config, local_collators, local_endowed,
  dev_endowed,
}

abbrev pub Derives : Sdk → Type 0
Derives sdk = (seed : String) → IsSome (sdk.public_from_string seed)

Ends-expect :
    {A : Type 0} (E : Type 0) (R : Rely) (s : String) (o : Option A)
    → IsSome o
    → Ends R (λ _. Unit {0}) (expect {E = E} s o)
Ends-expect E R s none known = absurd known
Ends-expect E R s (some a) known = tt

module _ (R : Rely) (sdk : Sdk) (E : Type 0) (derives : Derives sdk) where
  get_from_seed-Ends : (seed : String) → Ends R (λ _. Unit {0}) (get_from_seed sdk {E = E} seed)
  unfolding get_from_seed
  get_from_seed-Ends seed = Ends-expect E R _ _ (derives _)

  get_account_id_from_seed-Ends :
      (seed : String) → Ends R (λ _. Unit {0}) (get_account_id_from_seed sdk {E = E} seed)
  unfolding get_account_id_from_seed
  get_account_id_from_seed-Ends seed =
      Ends-bind R (λ _. Unit {0}) (λ _. Unit {0}) _ _ (get_from_seed-Ends seed) λ p _. tt

  get_account_ids-Ends :
      (seeds : List String) → Ends R (λ _. Unit {0}) (get_account_ids sdk {E = E} seeds)
  unfolding get_account_ids
  get_account_ids-Ends [] = tt
  get_account_ids-Ends (s ∷ seeds) =
      Ends-bind R (λ _. Unit {0}) (λ _. Unit {0}) _ _ (get_account_id_from_seed-Ends s)
        λ a _.
          Ends-bind R (λ _. Unit {0}) (λ _. Unit {0}) _ _ (get_account_ids-Ends seeds) λ xs _. tt

  get_collators-Ends :
      (seeds : List String) → Ends R (λ _. Unit {0}) (get_collators sdk {E = E} seeds)
  unfolding get_collators get_collator_keys_from_seed
  get_collators-Ends [] = tt
  get_collators-Ends (s ∷ seeds) =
      Ends-bind R (λ _. Unit {0}) (λ _. Unit {0}) _ _ (get_account_id_from_seed-Ends s)
        λ a _.
          Ends-bind R (λ _. Unit {0}) (λ _. Unit {0}) _ _ (get_from_seed-Ends s)
            λ k _.
              Ends-bind R (λ _. Unit {0}) (λ _. Unit {0}) _ _ (get_collators-Ends seeds) λ xs _. tt

  pub local_testnet_config-Ends :
      IsSome sdk.wasm_binary → Ends R (λ _. Unit {0}) (local_testnet_config sdk {E = E})
  unfolding local_testnet_config
  local_testnet_config-Ends built =
      Ends-bind R (λ _. Unit {0}) (λ _. Unit {0}) _ _ (Ends-expect E R _ _ built)
        λ wasm _.
          Ends-bind R (λ _. Unit {0}) (λ _. Unit {0}) _ _ (get_collators-Ends local_collators)
            λ cs _.
              Ends-bind R (λ _. Unit {0}) (λ _. Unit {0}) _ _ (get_account_ids-Ends local_endowed)
                λ xs _.
                  Ends-bind R (λ _. Unit {0}) (λ _. Unit {0}) _ _
                    (get_account_id_from_seed-Ends "Alice") λ root _. tt

  pub development_config-Ends :
      IsSome sdk.dev_wasm_binary → Ends R (λ _. Unit {0}) (development_config sdk {E = E})
  unfolding development_config
  development_config-Ends built =
      Ends-bind R (λ _. Unit {0}) (λ _. Unit {0}) _ _ (Ends-expect E R _ _ built)
        λ wasm _.
          Ends-bind R (λ _. Unit {0}) (λ _. Unit {0}) _ _ (get_account_id_from_seed-Ends "Alice")
            λ root _.
              Ends-bind R (λ _. Unit {0}) (λ _. Unit {0}) _ _ (get_account_ids-Ends dev_endowed)
                λ xs _. tt
