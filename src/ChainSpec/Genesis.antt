-- ===== src/ChainSpec/Genesis.antt =====
-- What the two specifications put into the genesis state: parachain, collators, keys and balances.
use ink_node.Base.{
  ℕ, suc, ◌+◌, ◌*◌, ◌≤◌, ◌≡◌, refl, ap, String, Option, none, some, List, [], ◌∷◌, map, arith, ◌∙◌,
  sym, subst, ◌++◌,
}
use ink_node.Sdk.{Sdk, Public, AccountId, ChainSpec}
use ink_node.Sdk.Json.{Json, Items, null, num, str, arr, obj, nil, cons, items, find, pair}
use ink_node.Runtime.Units.{existential_deposit}
use ink_node.Runtime.Schedules.{max_invulnerables}
use ink_node.Prog.Quiet.{IsQuiet, IsQuiet-ret, IsQuiet-bind, IsQuiet-expect}
use ink_node.ChainSpec.Seeds.{
  length, AllSeeded, AllSeeded-length, Member, AllMembers, AllSeeded-AllMembers,
  get_account_id_from_seed-IsQuiet, get_account_ids-IsQuiet, get_collators-IsQuiet,
}
use ink_node.ChainSpec.{
  testnet_genesis, dev_testnet_genesis, session_entry, account_of, endowment, local_testnet_config,
  development_config, local_collators, local_endowed, dev_endowed, local_extensions,
}

abbrev member : String → Json → Json
member k (obj fs) = go (find k fs)
  where
    go : Option Json → Json
    go none = null
    go (some j) = j
member k null = null
member k (num n) = null
member k (str s) = null
member k (arr xs) = null

abbrev first : Json → Json
first (arr (cons x xs)) = x
first j = null

abbrev second_number : Json → ℕ
second_number (arr (cons x (cons (num n) xs))) = n
second_number j = 0

-- The first component of each entry of an array of tuples.
abbrev firsts : Items → Items
firsts nil = nil
firsts (cons x xs) = cons (first x) (firsts xs)

abbrev elements : Json → Items
elements (arr xs) = xs
elements j = nil

abbrev sum_seconds : Items → ℕ
sum_seconds nil = 0
sum_seconds (cons x xs) = second_number x + sum_seconds xs

-- The accounts that have session keys.
abbrev pub keyed_accounts : Json → Items
keyed_accounts g = firsts (elements (member "keys" (member "session" g)))

abbrev pub invulnerables : Json → Items
invulnerables g = elements (member "invulnerables" (member "collatorSelection" g))

abbrev pub issuance : Json → ℕ
issuance g = sum_seconds (elements (member "balances" (member "balances" g)))

abbrev count : Items → ℕ
count nil = 0
count (cons x xs) = suc (count xs)

-- No second component below a bound.
abbrev AllFrom : ℕ → Items → Type 0
AllFrom m nil = Unit
AllFrom m (cons x xs) = (m ≤ second_number x) × AllFrom m xs

abbrev pub sudo_key : Json → Json
sudo_key g = member "key" (member "sudo" g)

abbrev pub balances : Json → Items
balances g = elements (member "balances" (member "balances" g))

firsts-balances :
    (sdk : Sdk) (xs : List AccountId)
    → firsts (items (λ k. pair (sdk.account_json k) (num endowment)) xs) ≡ items sdk.account_json xs
firsts-balances sdk [] = refl
firsts-balances sdk (x ∷ xs) = ap (cons (sdk.account_json x)) (firsts-balances sdk xs)

firsts-items :
    (sdk : Sdk) (xs : List (AccountId × Public))
    → firsts (items (session_entry sdk) xs) ≡ items sdk.account_json (map account_of xs)
firsts-items sdk [] = refl
firsts-items sdk ((a, k) ∷ xs) = ap (cons (sdk.account_json a)) (firsts-items sdk xs)

sum_seconds-items :
    (sdk : Sdk) (xs : List AccountId)
    → sum_seconds (items (λ k. pair (sdk.account_json k) (num endowment)) xs)
      ≡ length xs * endowment
sum_seconds-items sdk [] = refl
sum_seconds-items sdk (x ∷ xs) = omega (arith, sum_seconds-items sdk xs)

count-items : (sdk : Sdk) (xs : List AccountId) → count (items sdk.account_json xs) ≡ length xs
count-items sdk [] = refl
count-items sdk (x ∷ xs) = ap suc (count-items sdk xs)

endowed-AllFrom :
    (sdk : Sdk) (xs : List AccountId)
    → AllFrom existential_deposit (items (λ k. pair (sdk.account_json k) (num endowment)) xs)
endowed-AllFrom sdk [] = tt
endowed-AllFrom sdk (x ∷ xs) = (omega arith, endowed-AllFrom sdk xs)

-- A specification of the local network that agrees with itself.
pub record IsLocal (s : ChainSpec) : Type 0 where
  pub extended : s.extensions ≡ some local_extensions
  pub same_para_id :
      member "parachainId" (member "parachainInfo" s.genesis_config_patch)
      ≡ num local_extensions.para_id
  pub collating :
      (count (invulnerables s.genesis_config_patch) ≡ 2)
      × (count (invulnerables s.genesis_config_patch) ≤ max_invulnerables)
  pub funded :
      AllMembers (invulnerables s.genesis_config_patch) (firsts (balances s.genesis_config_patch))
  pub governed : Member (sudo_key s.genesis_config_patch) (firsts (balances s.genesis_config_patch))
  pub keyed : keyed_accounts s.genesis_config_patch ≡ invulnerables s.genesis_config_patch
  pub issued : issuance s.genesis_config_patch ≡ 12 * endowment
  pub existing : AllFrom existential_deposit (balances s.genesis_config_patch)
  pub named : s.name ≡ "Local Testnet"

-- A specification by which the development chain is known, with twelve endowments.
pub record IsDevelopment (s : ChainSpec) : Type 0 where
  pub governed : Member (sudo_key s.genesis_config_patch) (firsts (balances s.genesis_config_patch))
  pub named : s.name ≡ "Development"
  pub issued : issuance s.genesis_config_patch ≡ 12 * endowment
  pub existing : AllFrom existential_deposit (balances s.genesis_config_patch)

-- The seeds after the first one, and after those of the collators.
abbrev rest_of : List String → List String
rest_of [] = []
rest_of (s ∷ ss) = ss

module _ (sdk : Sdk) (E : Type 0) where
  -- Accounts of the first seeds are among those with balances.
  endowed-AllMembers :
      (ss ts : List String) (own xs : List AccountId)
      → AllSeeded sdk ss own
      → AllSeeded sdk (ss ++ ts) xs
      → AllMembers
          (items sdk.account_json own)
          (firsts (items (λ k. pair (sdk.account_json k) (num endowment)) xs))
  endowed-AllMembers ss ts own xs p q =
      subst (AllMembers (items sdk.account_json own)) (sym (firsts-balances sdk xs))
        (AllSeeded-AllMembers sdk sdk.account_json ss ts own xs p q)

  issued_lem :
      (seeds : List String) (xs : List AccountId)
      → AllSeeded sdk seeds xs
      → sum_seconds (items (λ k. pair (sdk.account_json k) (num endowment)) xs)
        ≡ length seeds * endowment
  issued_lem seeds xs all =
      sum_seconds-items sdk xs ∙ ap (λ n. n * endowment) (AllSeeded-length sdk seeds xs all)

  pub local_testnet_config-IsQuiet : IsQuiet {E = E} IsLocal (local_testnet_config sdk)
  unfolding local_testnet_config testnet_genesis
  local_testnet_config-IsQuiet = IsQuiet-bind (IsQuiet-expect _ sdk.wasm_binary) λ wasm _.
      IsQuiet-bind (get_collators-IsQuiet sdk E local_collators) λ cs own.
        IsQuiet-bind (get_account_ids-IsQuiet sdk E local_endowed) λ xs all.
          IsQuiet-bind (get_account_id_from_seed-IsQuiet sdk E "Alice") λ root e.
            let two =
              count-items sdk (map account_of cs)
              ∙ AllSeeded-length sdk local_collators (map account_of cs) own in
            IsQuiet-ret _ (record {
              extended = refl;
              same_para_id = refl;
              collating = (two, omega (arith, two));
              funded =
                  endowed-AllMembers local_collators (rest_of (rest_of local_endowed))
                    (map account_of cs) xs own all;
              governed =
                  (endowed-AllMembers ("Alice" ∷ []) (rest_of local_endowed) (root ∷ []) xs (e, tt)
                    all).0;
              keyed = firsts-items sdk cs;
              existing = endowed-AllFrom sdk xs;
              issued = issued_lem local_endowed xs all;
              named = refl;
            })

  pub development_config-IsQuiet : IsQuiet {E = E} IsDevelopment (development_config sdk)
  unfolding development_config dev_testnet_genesis
  development_config-IsQuiet = IsQuiet-bind (IsQuiet-expect _ sdk.dev_wasm_binary) λ wasm _.
      IsQuiet-bind (get_account_id_from_seed-IsQuiet sdk E "Alice") λ root e.
        IsQuiet-bind (get_account_ids-IsQuiet sdk E dev_endowed) λ xs all. IsQuiet-ret _ (record {
          named = refl;
          governed =
              (endowed-AllMembers ("Alice" ∷ []) (rest_of dev_endowed) (root ∷ []) xs (e, tt)
                all).0;
          issued = issued_lem dev_endowed xs all;
          existing = endowed-AllFrom sdk xs;
        })
