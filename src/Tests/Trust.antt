-- ===== src/Tests/Trust.antt =====
-- The theorems about trust in other chains at concrete inputs.
use ink_node.Base.{
  ℕ, ◌*◌, ◌≡◌, ◌≢◌, refl, ◌↔◌, ◌⊎◌, leb, ◌||◌, Bool, true, false, Option, none, some, List, [], ◌∷◌,
  if◌then◌else◌,
}
use native.Mathlib.Decide.{ℕ_discrete}
use ink_node.Runtime.Origins.{Junction, plurality, Location, contains}
use ink_node.Runtime.Weights.{Weight, from_parts}
use ink_node.Runtime.Messages.{OriginKind, xcm, RuntimeOrigin, transact_dispatch_origin}
use ink_node.Runtime.Messages.Dispatch.{place, account_of}
use ink_node.Runtime.Messages.Assets.{Asset, Deposit, complete, relay_location, token_location}
use ink_node.Runtime.Messages.Collators.{
  EnsureBuilder, of_passed, EnsuresOrigins, collator_selection_update_origin, controller_origin,
  admin_origin, force_origin, collator_selection_update_origin_iff,
}
use ink_node.Runtime.Messages.Senders.{OriginToLocation}
use ink_node.Runtime.Messages.Executor.{ConfigBuilder}
use ink_node.Runtime.Messages.Trust.{
  Incoming, Receipt, reserve_asset_deposited, receive_teleported_asset, untrusted_reserve_location,
  untrusted_teleport_location, deposited, receipt, ExecutorBuilder, Executes, relay_tokens,
  IsCredit, IsRefusal,
}
use ink_node.Runtime.Messages.Trust.Received.{receive, reserve_transfer, receive-IsCredit}
use ink_node.Tests.Letters.{
  Letter, letters, letters-Converts, deposits, deposits-Deposits, test_senders,
}
use ink_node.Tests.Queues.{channels}

junction_discrete : Discrete Junction
junction_discrete = hlevel ℕ_discrete

location_discrete : Discrete Location
location_discrete = hlevel (ℕ_discrete, junction_discrete)

pub same_location : Location → Location → Bool
same_location l m = elim (location_discrete l m) [ yes _ ↦ true | no _ ↦ false ]

same_location_iff : (l m : Location) → (same_location l m ≡ true) ↔ (l ≡ m)
unfolding same_location
same_location_iff l m = go (location_discrete l m)
  where
    go :
        (d : Dec (l ≡ m)) → (elim d as (λ _. Bool) [ yes _ ↦ true | no _ ↦ false ] ≡ true) ↔ (l ≡ m)
    go (yes e) = (λ _. e, λ _. refl)
    go (no n) = (λ e. cc, λ e. absurd (n e))

abbrev voice_of : ℕ → Location
voice_of body = record { parents = 1; interior = plurality body 0 ∷ [] }

abbrev of_root : RuntimeOrigin → Bool
of_root RuntimeOrigin.root = true
of_root _ = false

abbrev ensures : EnsureBuilder
ensures = record {
  defense = 7;
  voice = 0;
  ensure_root = of_root;
  ensure_xcm = of_passed;
  is_voice_of_body = λ prefix body l. same_location l (voice_of body);
  either_of_diverse = λ f g o. f o || g o;
}

ensures-EnsuresOrigins : EnsuresOrigins ensures
ensures-EnsuresOrigins = record {
  root_lem = λ o. rooted o;
  xcm_lem = λ p o. refl;
  voice_lem = λ body l. same_location_iff l (voice_of body);
  either_lem = λ f g o. refl;
}
  where
    rooted : (o : RuntimeOrigin) → (ensures.ensure_root o ≡ true) ↔ (o ≡ RuntimeOrigin.root)
    rooted RuntimeOrigin.root = (λ e. refl, λ e. refl)
    rooted RuntimeOrigin.relay = (λ e. cc, λ e. cc)
    rooted (RuntimeOrigin.signed n) = (λ e. cc, λ e. cc)
    rooted (RuntimeOrigin.sibling_para n) = (λ e. cc, λ e. cc)
    rooted (RuntimeOrigin.passed l) = (λ e. cc, λ e. cc)

collator_selection_update_origin_iff_example :
    ((o : RuntimeOrigin)
      → (collator_selection_update_origin ensures o ≡ true)
        ↔ ((o ≡ RuntimeOrigin.root) ⊎ (o ≡ RuntimeOrigin.passed (voice_of 7))))
    × ((l : Location) (kind : OriginKind) (o : RuntimeOrigin)
        → transact_dispatch_origin letters l kind ≡ some o
        → ((collator_selection_update_origin ensures o ≡ true) ↔ ((kind ≡ xcm) × (l ≡ voice_of 7)))
          × (controller_origin ensures o ≡ false)
          × (admin_origin ensures o ≡ false)
          × (force_origin ensures o ≡ false))
    × (contains (voice_of 7) ≡ true)
collator_selection_update_origin_iff_example =
    collator_selection_update_origin_iff letters letters-Converts ensures ensures-EnsuresOrigins

-- A message has three instructions if it pays, and else a hundred.
abbrev pub instructions : Letter → ℕ
instructions m = if m.paying then 3 else 100

abbrev pub bounds : Weight → ℕ → Letter → Option Weight
bounds u n m =
    if leb (instructions m) n
    then some (from_parts (instructions m * u.ref_time) (instructions m * u.proof_size))
    else none

abbrev pub configs : ConfigBuilder letters
configs = record {
  Trader = ℕ;
  native_asset = λ asset l. same_location asset.id l;
  no_pair = λ asset l. false;
  fixed_weight_bounds = bounds;
  using_components = λ fee l p. 1;
}

-- No transfer without an origin, and none that the filter stops.
abbrev transferred :
    OriginToLocation
    → (Location × List Asset → Bool)
    → RuntimeOrigin
    → Location
    → List Asset
    → List (ℕ × ℕ)
    → Bool × List (ℕ × ℕ)
transferred c f o l assets s = if allowed (c o) then (true, []) else (false, s)
  where
    allowed : Option Location → Bool
    allowed none = false
    allowed (some from) = f (from, assets)

abbrev taken :
    (Asset → Location → Bool)
    → (Asset → Location → Bool)
    → Deposit (List (ℕ × ℕ))
    → Incoming
    → Location
    → Location
    → List (ℕ × ℕ)
    → Receipt × List (ℕ × ℕ)
taken r t d (reserve_asset_deposited asset) origin who s =
    if r asset origin then receipt (d asset who s) else (untrusted_reserve_location, s)
taken r t d (receive_teleported_asset asset) origin who s =
    if t asset origin then receipt (d asset who s) else (untrusted_teleport_location, s)

abbrev executor : ExecutorBuilder (List (ℕ × ℕ))
executor = record { receive = taken; reserve_transfer = transferred }

executor-Executes : Executes letters (List (ℕ × ℕ)) configs executor
executor-Executes = record {
  native_lem = λ asset l. same_location_iff asset.id l;
  no_pair_lem = λ asset l. refl;
  reserve_lem = λ r t d asset origin who s. refl;
  teleport_lem = λ r t d asset origin who s. refl;
  filter_lem = λ c f o l from assets s known shut. rw (known, shut) refl;
  no_origin_lem = λ c f o l assets s unknown. rw unknown refl;
}

receive-IsCredit_example :
    let take =
      receive letters deposits channels test_senders configs executor letters-Converts
        deposits-Deposits executor-Executes ensures [] 1000 in
    ((i : Incoming) (origin who : Location)
      → origin ≢ token_location
      → IsRefusal [] (take i origin who [])
        ⊎ IsCredit
            (λ who n s. (who, n) ∷ s)
            (account_of 77 (place who))
            i
            origin
            []
            (take i origin who []))
    × ((n account : ℕ) (who : Location)
        → account_of 77 (place who) ≡ some account
        → take (reserve_asset_deposited (relay_tokens n)) relay_location who []
          ≡ (deposited complete, (account, n) ∷ []))
    × ((asset : Asset) (origin who : Location)
        → take (receive_teleported_asset asset) origin who [] ≡ (untrusted_teleport_location, []))
    × ((o : RuntimeOrigin) (l : Location) (assets : List Asset)
        → reserve_transfer letters deposits channels test_senders configs executor letters-Converts
            deposits-Deposits executor-Executes ensures [] 1000 o l assets []
          ≡ (false, []))
receive-IsCredit_example =
    receive-IsCredit letters deposits channels test_senders configs executor letters-Converts
      deposits-Deposits executor-Executes ensures [] 1000 []
