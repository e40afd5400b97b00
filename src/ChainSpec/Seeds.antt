-- ===== src/ChainSpec/Seeds.antt =====
-- node/src/chain_spec.rs and node/src/chain_spec/dev.rs: the accounts that are derived from seeds.
use ink_node.Base.{
  ℕ, suc, ◌≡◌, refl, sym, ◌∙◌, ap, String, ◌<>◌, Option, some, map_some, ◌⊎◌, inl, inr, List, [],
  ◌∷◌, ◌++◌, map,
}
use mathlib.Core.Option.{some-injective}
use ink_node.Sdk.{Sdk, AccountId}
use ink_node.Sdk.Json.{Json, Items, nil, cons, items}
use ink_node.Prog.Quiet.{IsQuiet, IsQuiet-ret, IsQuiet-bind, IsQuiet-expect, IsQuiet-expect-some}
use ink_node.ChainSpec.{
  account_of, get_from_seed, get_account_id_from_seed, get_collator_keys_from_seed, get_account_ids,
  get_collators,
}

abbrev pub length {ℓ} : {A : Type ℓ} → List A → ℕ
length [] = 0
length (x ∷ xs) = suc (length xs)

-- The account of a seed, where there is one.
abbrev pub seeded : Sdk → String → Option AccountId
seeded sdk seed = map_some sdk.into_account (sdk.public_from_string ("//" <> seed))

abbrev pub AllSeeded : Sdk → List String → List AccountId → Type 0
AllSeeded sdk [] [] = Unit
AllSeeded sdk [] (x ∷ xs) = ⊥
AllSeeded sdk (s ∷ ss) [] = ⊥
AllSeeded sdk (s ∷ ss) (x ∷ xs) = (seeded sdk s ≡ some x) × AllSeeded sdk ss xs

pub AllSeeded-length :
    (sdk : Sdk) (ss : List String) (xs : List AccountId)
    → AllSeeded sdk ss xs
    → length xs ≡ length ss
AllSeeded-length sdk [] [] all = refl
AllSeeded-length sdk [] (x ∷ xs) all = absurd all
AllSeeded-length sdk (s ∷ ss) [] all = absurd all
AllSeeded-length sdk (s ∷ ss) (x ∷ xs) all = ap suc (AllSeeded-length sdk ss xs all.1)

abbrev pub Member : Json → Items → Type 0
Member j nil = ⊥
Member j (cons x xs) = (j ≡ x) ⊎ Member j xs

abbrev pub AllMembers : Items → Items → Type 0
AllMembers nil ys = Unit
AllMembers (cons x xs) ys = Member x ys × AllMembers xs ys

AllMembers-cons : (y : Json) (xs ys : Items) → AllMembers xs ys → AllMembers xs (cons y ys)
AllMembers-cons y nil ys all = tt
AllMembers-cons y (cons x xs) ys all = (inr all.0, AllMembers-cons y xs ys all.1)

-- The accounts of the first seeds are among those of all of them.
pub AllSeeded-AllMembers :
    (sdk : Sdk) (f : AccountId → Json) (ss ts : List String) (own xs : List AccountId)
    → AllSeeded sdk ss own
    → AllSeeded sdk (ss ++ ts) xs
    → AllMembers (items f own) (items f xs)
AllSeeded-AllMembers sdk f [] ts [] xs p q = tt
AllSeeded-AllMembers sdk f [] ts (a ∷ others) xs p q = absurd p
AllSeeded-AllMembers sdk f (s ∷ ss) ts [] xs p q = absurd p
AllSeeded-AllMembers sdk f (s ∷ ss) ts (a ∷ others) [] p q = absurd q
AllSeeded-AllMembers sdk f (s ∷ ss) ts (a ∷ others) (x ∷ xs) p q = (
  inl (ap f (some-injective a x (sym p.0 ∙ q.0))),
  AllMembers-cons (f x) (items f others) (items f xs)
      (AllSeeded-AllMembers sdk f ss ts others xs p.1 q.1),
)

module _ (sdk : Sdk) (E : Type 0) where
  pub get_account_id_from_seed-IsQuiet :
      (seed : String)
      → IsQuiet {E = E} (λ a. seeded sdk seed ≡ some a) (get_account_id_from_seed sdk seed)
  unfolding get_account_id_from_seed get_from_seed
  get_account_id_from_seed-IsQuiet seed =
      IsQuiet-bind (IsQuiet-expect-some _ (sdk.public_from_string ("//" <> seed)))
        λ p e. IsQuiet-ret _ (ap (map_some sdk.into_account) e)

  get_collator_keys_from_seed-IsQuiet :
      (seed : String) → IsQuiet {E = E} (λ _. Unit {0}) (get_collator_keys_from_seed sdk seed)
  unfolding get_collator_keys_from_seed get_from_seed
  get_collator_keys_from_seed-IsQuiet seed =
      IsQuiet-expect _ (sdk.public_from_string ("//" <> seed))

  pub get_account_ids-IsQuiet :
      (seeds : List String) → IsQuiet {E = E} (AllSeeded sdk seeds) (get_account_ids sdk seeds)
  unfolding get_account_ids
  get_account_ids-IsQuiet [] = IsQuiet-ret _ tt
  get_account_ids-IsQuiet (s ∷ seeds) =
      IsQuiet-bind (get_account_id_from_seed-IsQuiet s)
        λ a e. IsQuiet-bind (get_account_ids-IsQuiet seeds) λ xs all. IsQuiet-ret _ (e, all)

  pub get_collators-IsQuiet :
      (seeds : List String)
      → IsQuiet {E = E} (λ cs. AllSeeded sdk seeds (map account_of cs)) (get_collators sdk seeds)
  unfolding get_collators
  get_collators-IsQuiet [] = IsQuiet-ret _ tt
  get_collators-IsQuiet (s ∷ seeds) = IsQuiet-bind (get_account_id_from_seed-IsQuiet s) λ a e.
      IsQuiet-bind (get_collator_keys_from_seed-IsQuiet s)
        λ k _. IsQuiet-bind (get_collators-IsQuiet seeds) λ xs all. IsQuiet-ret _ (e, all)
