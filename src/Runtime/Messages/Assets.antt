-- ===== src/Runtime/Messages/Assets.antt =====
-- parachain-runtime/src/xcm_config.rs: how messages deposit assets (`AssetTransactors`).
use ink_node.Base.{
  ℕ, ◌≡◌, ◌≢◌, refl, sym, ap, ap₂, subst, ◌∙◌, Option, none, some, ◌⊎◌, inl, inr, List, [], ◌∷◌,
}
use ink_node.Runtime.Origins.{Location}
use ink_node.Runtime.Messages.{ConvertLocation, XcmBuilder, location_to_account_id}
use ink_node.Runtime.Messages.Dispatch.{place, account_of, Converts, location_to_account_id_lem}

pub data Fungibility : Type 0 where
  fungible non_fungible : ℕ → Fungibility

pub record Asset : Type 0 where
  pub id : Location
  pub fun : Fungibility

pub data XcmResult : Type 0 where
  complete asset_not_found account_id_conversion_failed : XcmResult

-- Depositing an asset at a location, on the balances of the chain.
abbrev pub Deposit : Type 0 → Type 0
Deposit Ledger = Asset → Location → Ledger → XcmResult × Ledger

-- The transactors of xcm_builder over `Balances`; a tuple of them is a list.
pub record AssetBuilder : Type 1 where
  pub Ledger : Type 0
  pub deposit_creating : ℕ → ℕ → Ledger → Ledger
  pub is_concrete : Location → Asset → Option ℕ
  pub currency_adapter :
      (ℕ → ℕ → Ledger → Ledger) → (Asset → Option ℕ) → ConvertLocation → Deposit Ledger
  pub first_deposit : List (Deposit Ledger) → Deposit Ledger

-- `Here`, `Parent` and so on.
abbrev pub ancestor : ℕ → Location
ancestor k = record { parents = k; interior = [] }

abbrev pub token_location : Location
token_location = ancestor 0

abbrev pub relay_location : Location
relay_location = ancestor 1

module _ (x : XcmBuilder) (a : AssetBuilder) where
  unfoldable pub local_asset_transactor : Deposit a.Ledger
  local_asset_transactor =
      a.currency_adapter a.deposit_creating (a.is_concrete relay_location)
        (location_to_account_id x)

  unfoldable pub local_balances_transactor : Deposit a.Ledger
  local_balances_transactor =
      a.currency_adapter a.deposit_creating (a.is_concrete token_location)
        (location_to_account_id x)

  unfoldable pub asset_transactors : Deposit a.Ledger
  unfolding local_asset_transactor local_balances_transactor
  asset_transactors = a.first_deposit (local_balances_transactor ∷ local_asset_transactor ∷ [])

-- What an adapter does with an amount and an account, as far as there are any.
abbrev pub adapted : {L : Type 0} → (ℕ → ℕ → L → L) → Option ℕ → Option ℕ → L → XcmResult × L
adapted deposit none who s = (asset_not_found, s)
adapted deposit (some n) none s = (account_id_conversion_failed, s)
adapted deposit (some n) (some who) s = (complete, deposit who n s)

-- The next transactor is asked only if the first does not know the asset.
abbrev pub or_next : {L : Type 0} → (XcmResult × L) → (L → XcmResult × L) → XcmResult × L
or_next (asset_not_found, s) next = next s
or_next (complete, s) next = (complete, s)
or_next (account_id_conversion_failed, s) next = (account_id_conversion_failed, s)

-- What xcm_builder documents of its transactors.
pub record Deposits (a : AssetBuilder) : Type 0 where
  pub adapter_lem :
      (m : Asset → Option ℕ) (c : ConvertLocation) (asset : Asset) (who : Location) (s : a.Ledger)
      → a.currency_adapter a.deposit_creating m c asset who s
        ≡ adapted a.deposit_creating (m asset) (c who) s
  pub nil_lem :
      (asset : Asset) (who : Location) (s : a.Ledger)
      → a.first_deposit [] asset who s ≡ (asset_not_found, s)
  pub cons_lem :
      (d : Deposit a.Ledger) (ds : List (Deposit a.Ledger)) (asset : Asset) (who : Location)
      (s : a.Ledger)
      → a.first_deposit (d ∷ ds) asset who s
        ≡ or_next (d asset who s) (a.first_deposit ds asset who)
  pub concrete_lem :
      (k n : ℕ) → a.is_concrete (ancestor k) (record { id = ancestor k; fun = fungible n }) ≡ some n
  pub other_lem :
      (k : ℕ) (asset : Asset) → asset.id ≢ ancestor k → a.is_concrete (ancestor k) asset ≡ none
  pub unique_lem :
      (k n : ℕ) (i : Location)
      → a.is_concrete (ancestor k) (record { id = i; fun = non_fungible n }) ≡ none

-- Both tokens are deposited as the chain's own balances.
abbrev pub IsToken : Location → Type 0
IsToken l = (l ≡ token_location) ⊎ (l ≡ relay_location)

answered :
    {L : Type 0} (f : ℕ → ℕ → L → L) (n : ℕ) (who : Option ℕ) (s : L) (k : L → XcmResult × L)
    → or_next (adapted f (some n) who s) k ≡ adapted f (some n) who s
answered f n none s k = refl
answered f n (some w) s k = refl

relay_not_token : relay_location ≢ token_location
relay_not_token e = let parents = ap (λ (l : Location). l.parents) e in cc

module _ (x : XcmBuilder) (a : AssetBuilder) (c : Converts x) (d : Deposits a) where
  -- What a transactor for one location does.
  at : Location → Asset → Location → a.Ledger → XcmResult × a.Ledger
  at l asset who s =
      adapted a.deposit_creating (a.is_concrete l asset) (account_of c.preset (place who)) s

  transactor_lem :
      (l : Location) (asset : Asset) (who : Location) (s : a.Ledger)
      → a.currency_adapter a.deposit_creating
          (a.is_concrete l)
          (location_to_account_id x)
          asset
          who
          s
        ≡ at l asset who s
  unfolding at
  transactor_lem l asset who s =
      d.adapter_lem (a.is_concrete l) (location_to_account_id x) asset who s
      ∙ ap (λ (w : Option ℕ). adapted a.deposit_creating (a.is_concrete l asset) w s)
          (location_to_account_id_lem x c who)

  later :
      (asset : Asset) (who : Location) (s : a.Ledger)
      → a.first_deposit (local_asset_transactor x a ∷ []) asset who s
        ≡ or_next (at relay_location asset who s) (λ u. (asset_not_found, u))
  unfolding local_asset_transactor
  later asset who s =
      d.cons_lem (local_asset_transactor x a) [] asset who s
      ∙ ap₂ or_next (transactor_lem relay_location asset who s) (λ j. λ u. d.nil_lem asset who u j)

  both :
      (asset : Asset) (who : Location) (s : a.Ledger)
      → asset_transactors x a asset who s
        ≡ or_next
            (at token_location asset who s)
            (λ t. or_next (at relay_location asset who t) (λ u. (asset_not_found, u)))
  unfolding asset_transactors local_balances_transactor
  both asset who s =
      d.cons_lem (local_balances_transactor x a) (local_asset_transactor x a ∷ []) asset who s
      ∙ ap₂ or_next (transactor_lem token_location asset who s) (λ j. λ t. later asset who t j)

  unknown :
      (asset : Asset) (who : Location) (s : a.Ledger)
      → a.is_concrete token_location asset ≡ none
      → a.is_concrete relay_location asset ≡ none
      → asset_transactors x a asset who s ≡ (asset_not_found, s)
  unfolding at
  unknown asset who s e e' = both asset who s ∙ rw (e, e') refl

  concrete :
      (k n : ℕ) (i : Location)
      → i ≡ ancestor k
      → a.is_concrete (ancestor k) (record { id = i; fun = fungible n }) ≡ some n
  concrete k n i e =
      subst
        (λ (j : Location).
          a.is_concrete (ancestor k) (record { id = j; fun = fungible n }) ≡ some n)
        (sym e) (d.concrete_lem k n)

  other :
      (i : Location) (n : ℕ)
      → i ≡ relay_location
      → a.is_concrete token_location (record { id = i; fun = fungible n }) ≡ none
  other i n e =
      d.other_lem 0 (record { id = i; fun = fungible n }) λ e'. relay_not_token (sym e ∙ e')

  known :
      (i : Location) (n : ℕ) (who : Location) (s : a.Ledger)
      → IsToken i
      → asset_transactors x a (record { id = i; fun = fungible n }) who s
        ≡ adapted a.deposit_creating (some n) (account_of c.preset (place who)) s
  unfolding at
  known i n who s (inl e) =
      both (record { id = i; fun = fungible n }) who s
      ∙ rw (concrete 0 n i e) (answered a.deposit_creating n _ s _)
  known i n who s (inr e) =
      both (record { id = i; fun = fungible n }) who s
      ∙ rw (other i n e, concrete 1 n i e) (answered a.deposit_creating n _ s _)

  -- If the building blocks do what xcm_builder documents of them, an amount of the chain's own or of
  -- the relay chain's token is deposited one for one in the balances, for the account of the parent
  -- or an own account, and fails without a change for any other place. Any other
  -- asset, and any that is not fungible, is not found and changes nothing.
  pub asset_transactors-adapted :
      (who : Location) (s : a.Ledger)
      → ((i : Location) (n : ℕ)
          → IsToken i
          → asset_transactors x a (record { id = i; fun = fungible n }) who s
            ≡ adapted a.deposit_creating (some n) (account_of c.preset (place who)) s)
        × ((asset : Asset)
            → ¬ IsToken asset.id
            → asset_transactors x a asset who s ≡ (asset_not_found, s))
        × ((i : Location) (n : ℕ)
            → asset_transactors x a (record { id = i; fun = non_fungible n }) who s
              ≡ (asset_not_found, s))
  asset_transactors-adapted who s = (
    λ i n token. known i n who s token,
    λ asset other.
        unknown asset who s (d.other_lem 0 asset λ e. other (inl e))
          (d.other_lem 1 asset λ e. other (inr e)),
    λ i n.
        unknown (record { id = i; fun = non_fungible n }) who s (d.unique_lem 0 n i)
          (d.unique_lem 1 n i),
  )
