-- ===== src/Runtime/Messages/Trust.antt =====
-- parachain-runtime/src/xcm_config.rs: which assets other chains can bring in, and reserve transfers.
pub mod Received
use ink_node.Base.{
  ℕ, ◌≡◌, ◌≢◌, refl, ap, sym, ◌∙◌, ◌↔◌, Bool, true, false, Bool-cases, inl, inr, if◌then◌else◌,
  Option, none, some, Option-cases, List, [], ◌∷◌, ◌==◌, ◌⊎◌, arith,
}
use ink_node.Runtime.Origins.{Junction, Location}
use ink_node.Runtime.Fees.{WeightToFeeCoefficient}
use ink_node.Runtime.Messages.{XcmBuilder, RuntimeOrigin}
use ink_node.Runtime.Messages.Assets.{
  Asset, Fungibility, fungible, non_fungible, Deposit, AssetBuilder, XcmResult, complete, adapted,
  Deposits, IsToken, token_location, relay_location, asset_transactors, asset_transactors-adapted,
  ancestor,
}
use ink_node.Runtime.Messages.Dispatch.{place, account_of, Converts}
use ink_node.Runtime.Messages.Senders.{SenderBuilder, OriginToLocation, execute_xcm_origin}
use ink_node.Runtime.Messages.Router.{RouterBuilder}
use ink_node.Runtime.Messages.Collators.{EnsureBuilder}
use ink_node.Runtime.Messages.Executor.{nothing, ConfigBuilder, xcm_config, pallet_xcm_config}

-- How an asset comes in: backed by a reserve at its origin, or destroyed there.
pub data Incoming : Type 0 where
  reserve_asset_deposited receive_teleported_asset : Asset → Incoming

pub data Receipt : Type 0 where
  untrusted_reserve_location untrusted_teleport_location : Receipt
  deposited : XcmResult → Receipt

abbrev pub Pairs : Type 0
Pairs = Asset → Location → Bool

-- The executor's handling of an asset from an origin that is then deposited for a beneficiary, by
-- the reserves and teleporters it trusts, and a reserve transfer by pallet_xcm, by its filter.
pub record ExecutorBuilder (L : Type 0) : Type 1 where
  pub receive : Pairs → Pairs → Deposit L → Incoming → Location → Location → L → Receipt × L
  pub reserve_transfer :
      OriginToLocation
      → (Location × List Asset → Bool)
      → RuntimeOrigin
      → Location
      → List Asset
      → L
      → Bool × L

abbrev pub receipt : {L : Type 0} → XcmResult × L → Receipt × L
receipt r = (deposited r.0, r.1)

-- What the SDK documents of the two, of `NativeAsset` and of `()`.
pub record Executes (x : XcmBuilder) (L : Type 0) (b : ConfigBuilder x) (e : ExecutorBuilder L)
    : Type 0 where
  pub native_lem : (asset : Asset) (l : Location) → (b.native_asset asset l ≡ true) ↔ (asset.id ≡ l)
  pub no_pair_lem : (asset : Asset) (l : Location) → b.no_pair asset l ≡ false
  pub reserve_lem :
      (r t : Pairs) (d : Deposit L) (asset : Asset) (origin who : Location) (s : L)
      → e.receive r t d (reserve_asset_deposited asset) origin who s
        ≡ (if r asset origin then receipt (d asset who s) else (untrusted_reserve_location, s))
  pub teleport_lem :
      (r t : Pairs) (d : Deposit L) (asset : Asset) (origin who : Location) (s : L)
      → e.receive r t d (receive_teleported_asset asset) origin who s
        ≡ (if t asset origin then receipt (d asset who s) else (untrusted_teleport_location, s))
  pub filter_lem :
      (c : OriginToLocation) (f : Location × List Asset → Bool) (o : RuntimeOrigin)
      (l from : Location) (assets : List Asset) (s : L)
      → c o ≡ some from
      → f (from, assets) ≡ false
      → e.reserve_transfer c f o l assets s ≡ (false, s)
  pub no_origin_lem :
      (c : OriginToLocation) (f : Location × List Asset → Bool) (o : RuntimeOrigin) (l : Location)
      (assets : List Asset) (s : L)
      → c o ≡ none
      → e.reserve_transfer c f o l assets s ≡ (false, s)

-- An amount of the relay chain's token.
abbrev pub relay_tokens : ℕ → Asset
relay_tokens n = record { id = relay_location; fun = fungible n }

-- What an incoming asset can do: nothing at all, or credit an account with an amount of the relay
-- chain's token that the relay chain sent.
abbrev pub IsCredit :
    {L : Type 0} → (ℕ → ℕ → L → L) → Option ℕ → Incoming → Location → L → Receipt × L → Type 0
IsCredit credit account i origin s r =
    (n : ℕ) × (who : ℕ) × (i ≡ reserve_asset_deposited (relay_tokens n))
    × (origin ≡ relay_location)
    × (account ≡ some who)
    × (r ≡ (deposited complete, credit who n s))

-- Nothing was credited.
abbrev pub IsRefusal : {L : Type 0} → L → Receipt × L → Type 0
IsRefusal s r = (r.0 ≢ deposited complete) × (r.1 ≡ s)
