-- ===== src/Runtime/Messages/Trust/Received.antt =====
-- parachain-runtime/src/xcm_config.rs: what comes in with messages, and reserve transfers.
use ink_node.Base.{
  ℕ, ◌≡◌, ◌≢◌, refl, ap, sym, ◌∙◌, Bool, false, Bool-cases, inl, inr, Option, none, some,
  Option-cases, List, [], ◌∷◌, ◌==◌, ◌⊎◌, arith,
}
use ink_node.Runtime.Origins.{Junction, Location}
use ink_node.Runtime.Fees.{WeightToFeeCoefficient}
use ink_node.Runtime.Messages.{XcmBuilder, RuntimeOrigin}
use ink_node.Runtime.Messages.Assets.{
  Asset, Fungibility, fungible, non_fungible, AssetBuilder, complete, adapted, Deposits, IsToken,
  token_location, relay_location, asset_transactors, asset_transactors-adapted, ancestor,
}
use ink_node.Runtime.Messages.Dispatch.{place, account_of, Converts}
use ink_node.Runtime.Messages.Senders.{SenderBuilder, execute_xcm_origin}
use ink_node.Runtime.Messages.Router.{RouterBuilder}
use ink_node.Runtime.Messages.Collators.{EnsureBuilder}
use ink_node.Runtime.Messages.Executor.{nothing, ConfigBuilder, xcm_config, pallet_xcm_config}
use ink_node.Runtime.Messages.Trust.{
  Incoming, Receipt, ExecutorBuilder, receipt, Executes, relay_tokens, IsCredit, IsRefusal,
  reserve_asset_deposited, receive_teleported_asset, untrusted_teleport_location, deposited,
}

ancestor-decides : (k : ℕ) (l : Location) → (l ≡ ancestor k) ⊎ (l ≢ ancestor k)
ancestor-decides k l = go l.parents l.interior
  where
    go :
        (p : ℕ) (js : List Junction)
        → let l = ◌≡◌ {A = Location} (record { parents = p; interior = js }) (ancestor k) in l ⊎ ¬ l
    go p [] = elim (Bool-cases (p == k)) [
      | inl e ↦ let same : p ≡ k = ground (arith, e) in inl (ap ancestor same)
      | inr e ↦
          inr λ same.
            let parents = ap (λ (l : Location). l.parents) same in ground (arith, e, parents)
    ]
    go p (j ∷ js) = inr λ same. let inside = ap (λ (l : Location). l.interior) same in cc

-- The relay chain's token, by the account that it is for.
credited :
    {L : Type 0} (f : ℕ → ℕ → L → L) (i : Location) (n : ℕ) (origin : Location) (s : L)
    → i ≡ relay_location
    → origin ≡ relay_location
    → (account : Option ℕ)
    → let t = receipt (adapted f (some n) account s) in
      IsRefusal s t
      ⊎ IsCredit f account
          (reserve_asset_deposited (record { id = i; fun = fungible n }))
          origin
          s
          t
credited f i n origin s token relay none = inl (λ e. cc, refl)
credited f i n origin s token relay (some who) = inr (
  n,
  who,
  ap (λ (j : Location). reserve_asset_deposited (record { id = j; fun = fungible n })) token,
  relay,
  refl,
  refl,
)

module _ (x : XcmBuilder) (a : AssetBuilder) (c : Converts x) (d : Deposits a) where
  -- A trusted reserve's asset, after the transactors were asked.
  settled :
      (i : Location) (f : Fungibility) (origin who : Location) (s : a.Ledger)
      → i ≡ origin
      → origin ≢ token_location
      → let asset : Asset = record { id = i; fun = f } in
        let t = receipt (asset_transactors x a asset who s) in
        IsRefusal s t
        ⊎ IsCredit a.deposit_creating
            (account_of c.preset (place who))
            (reserve_asset_deposited asset)
            origin
            s
            t
  settled i (non_fungible n) origin who s same foreign =
      rw ((asset_transactors-adapted x a c d who s).2 i n) (inl (λ e. cc, refl))
  settled i (fungible n) origin who s same foreign = elim (ancestor-decides 1 i) [
    | inr other ↦
        let asset : Asset = record { id = i; fun = fungible n } in
        let unknown : ¬ IsToken asset.id = elim [
          | inl e ↦ foreign (sym same ∙ e)
          | inr e ↦ other e
        ] in
        rw ((asset_transactors-adapted x a c d who s).1 asset unknown) (inl (λ e. cc, refl))
    | inl relay ↦ rw ((asset_transactors-adapted x a c d who s).0 i n (inr relay)) (
        credited a.deposit_creating i n origin s relay (sym same ∙ relay)
          (account_of c.preset (place who)))
  ]

module _ (x : XcmBuilder) (a : AssetBuilder) (r : RouterBuilder) (t : SenderBuilder)
    (b : ConfigBuilder x) (e : ExecutorBuilder a.Ledger) (c : Converts x) (d : Deposits a)
    (k : Executes x a.Ledger b e) (ensure : EnsureBuilder) (fee : List WeightToFeeCoefficient)
    (para_id : ℕ) where
  -- The executor with this runtime's configuration.
  unfoldable pub receive : Incoming → Location → Location → a.Ledger → Receipt × a.Ledger
  unfolding xcm_config
  receive i origin who s =
      let config = xcm_config x a r t b fee para_id in
      e.receive config.is_reserve config.is_teleporter config.asset_transactor i origin who s

  -- `pallet_xcm` with its configuration.
  unfoldable pub reserve_transfer :
      RuntimeOrigin → Location → List Asset → a.Ledger → Bool × a.Ledger
  unfolding pallet_xcm_config
  reserve_transfer o l assets s =
      let config = pallet_xcm_config x a r t b ensure fee para_id in
      e.reserve_transfer config.execute_xcm_origin config.xcm_reserve_transfer_filter o l assets s

  comes_in :
      (i : Incoming) (origin who : Location) (s : a.Ledger)
      → origin ≢ token_location
      → IsRefusal s (receive i origin who s)
        ⊎ IsCredit a.deposit_creating
            (account_of c.preset (place who))
            i
            origin
            s
            (receive i origin who s)
  unfolding receive xcm_config
  comes_in (receive_teleported_asset asset) origin who s foreign =
      rw
        (
          k.teleport_lem b.native_asset b.no_pair (asset_transactors x a) asset origin who s,
          k.no_pair_lem asset origin,
        )
        (inl (λ e. cc, refl))
  comes_in (reserve_asset_deposited asset) origin who s foreign =
      elim (Bool-cases (b.native_asset asset origin)) [
        | inl own ↦
            rw
              (
                k.reserve_lem b.native_asset b.no_pair (asset_transactors x a) asset origin who s,
                own,
              )
              (settled x a c d asset.id asset.fun origin who s ((k.native_lem asset origin).0 own)
                foreign)
        | inr not_own ↦
            rw
              (
                k.reserve_lem b.native_asset b.no_pair (asset_transactors x a) asset origin who s,
                not_own,
              )
              (inl (λ e. cc, refl))
      ]

  -- If the building blocks, the transactors, the executor and pallet_xcm do what the SDK documents
  -- of them, an asset that comes in with a message of another chain either changes nothing and is
  -- refused, or is an amount of the relay chain's token whose reserve the relay chain itself says to
  -- hold, credited one for one to the account of the beneficiary; such an amount is always credited
  -- to a beneficiary that has an account here; no teleport is ever trusted; and a reserve
  -- transfer by pallet_xcm is refused and changes nothing, whoever asks for it.
  pub receive-IsCredit :
      (s : a.Ledger)
      → ((i : Incoming) (origin who : Location)
          → origin ≢ token_location
          → IsRefusal s (receive i origin who s)
            ⊎ IsCredit a.deposit_creating
                (account_of c.preset (place who))
                i
                origin
                s
                (receive i origin who s))
        × ((n account : ℕ) (who : Location)
            → account_of c.preset (place who) ≡ some account
            → receive (reserve_asset_deposited (relay_tokens n)) relay_location who s
              ≡ (deposited complete, a.deposit_creating account n s))
        × ((asset : Asset) (origin who : Location)
            → receive (receive_teleported_asset asset) origin who s
              ≡ (untrusted_teleport_location, s))
        × ((o : RuntimeOrigin) (l : Location) (assets : List Asset)
            → reserve_transfer o l assets s ≡ (false, s))
  unfolding receive reserve_transfer xcm_config pallet_xcm_config
  receive-IsCredit s = (
    λ i origin who foreign. comes_in i origin who s foreign,
    λ n account who known.
        let asset = relay_tokens n in
        rw
          (
            k.reserve_lem b.native_asset b.no_pair (asset_transactors x a) asset relay_location who
                s,
            (k.native_lem asset relay_location).1 refl,
            (asset_transactors-adapted x a c d who s).0 relay_location n (inr refl),
            known,
          )
          refl,
    λ asset origin who.
        rw
          (
            k.teleport_lem b.native_asset b.no_pair (asset_transactors x a) asset origin who s,
            k.no_pair_lem asset origin,
          )
          refl,
    λ o l assets. elim (Option-cases (execute_xcm_origin t o)) [
      | inl nobody ↦ k.no_origin_lem (execute_xcm_origin t) nothing o l assets s nobody
      | inr (from, known) ↦ k.filter_lem (execute_xcm_origin t) nothing o l from assets s known refl
    ],
  )
