-- ===== src/Runtime/Messages/Collators.antt =====
-- parachain-runtime/src/lib.rs: who may change the collators (`CollatorSelectionUpdateOrigin`), and
-- what only root may do.
use ink_node.Base.{
  ℕ, ◌≡◌, refl, ap, sym, ◌∙◌, ◌↔◌, ◌⊎◌, inl, inr, or_iff, ◌≢◌, Bool, Bool-cases, true, false, ◌||◌,
  Option, none, some, map_some, [], ◌∷◌,
}
use mathlib.Core.Option.{some-injective}
use ink_node.Runtime.Origins.{plurality, Location, contains}
use ink_node.Runtime.Messages.{
  OriginKind, native, sovereign_account, superuser, xcm, RuntimeOrigin, XcmBuilder,
  transact_dispatch_origin,
}
use ink_node.Runtime.Messages.Assets.{relay_location}
use ink_node.Runtime.Messages.Dispatch.{
  Place, place, account_of, native_of, origin_of, Converts, transact_dispatch_origin-origin_of,
}

abbrev pub EnsureOrigin : Type 0
EnsureOrigin = RuntimeOrigin → Bool

-- `defense` and `voice` are the codes of `BodyId::Defense` and `BodyPart::Voice`.
pub record EnsureBuilder : Type 0 where
  pub defense : ℕ
  pub voice : ℕ
  pub ensure_root : EnsureOrigin
  pub ensure_xcm : (Location → Bool) → EnsureOrigin
  pub is_voice_of_body : Location → ℕ → Location → Bool
  pub either_of_diverse : EnsureOrigin → EnsureOrigin → EnsureOrigin

module _ (b : EnsureBuilder) where
  abbrev pub staking_admin_body_id : ℕ
  staking_admin_body_id = b.defense

  unfoldable pub collator_selection_update_origin : EnsureOrigin
  collator_selection_update_origin =
      b.either_of_diverse b.ensure_root
        (b.ensure_xcm (b.is_voice_of_body relay_location staking_admin_body_id))

  -- Of the XCMP queue, of pallet_xcm and of the assets.
  unfoldable pub controller_origin : EnsureOrigin
  controller_origin = b.ensure_root

  unfoldable pub admin_origin : EnsureOrigin
  admin_origin = b.ensure_root

  unfoldable pub force_origin : EnsureOrigin
  force_origin = b.ensure_root

  -- The voice of the staking admin's body at the relay chain.
  abbrev pub staking_admin : Location
  staking_admin = record { parents = 1; interior = plurality b.defense b.voice ∷ [] }

abbrev pub of_passed : (Location → Bool) → EnsureOrigin
of_passed p (RuntimeOrigin.passed l) = p l
of_passed p _ = false

-- What the SDK documents of the four.
pub record EnsuresOrigins (b : EnsureBuilder) : Type 0 where
  pub root_lem : (o : RuntimeOrigin) → (b.ensure_root o ≡ true) ↔ (o ≡ RuntimeOrigin.root)
  pub xcm_lem : (p : Location → Bool) (o : RuntimeOrigin) → b.ensure_xcm p o ≡ of_passed p o
  pub voice_lem :
      (body : ℕ) (l : Location)
      → (b.is_voice_of_body relay_location body l ≡ true)
        ↔ ◌≡◌ {A = Location} l (record { parents = 1; interior = plurality body b.voice ∷ [] })
  pub either_lem :
      (f g : EnsureOrigin) (o : RuntimeOrigin) → b.either_of_diverse f g o ≡ (f o || g o)

passed-injective : (l m : Location) → RuntimeOrigin.passed l ≡ RuntimeOrigin.passed m → l ≡ m
passed-injective l m e = cc

-- Only as an XCM origin does a message's call have the location itself as its origin.
native_not_passed : (p : Place) (l : Location) → ¬ (native_of p ≡ some (RuntimeOrigin.passed l))
native_not_passed Place.parent l e = cc
native_not_passed Place.elsewhere l e = cc
native_not_passed (Place.sibling id) l e = cc
native_not_passed (Place.own_account id) l e = cc

signed_not_passed :
    (o : Option ℕ) (l : Location)
    → ¬ (map_some RuntimeOrigin.signed o ≡ some (RuntimeOrigin.passed l))
signed_not_passed none l e = cc
signed_not_passed (some a) l e = cc

passed_iff :
    (preset : ℕ) (l m : Location) (k : OriginKind)
    → (origin_of preset l k ≡ some (RuntimeOrigin.passed m)) ↔ ((k ≡ xcm) × (l ≡ m))
passed_iff preset l m native = (λ e. absurd (native_not_passed (place l) m e), λ (e, _). cc)
passed_iff preset l m sovereign_account =
    (λ e. absurd (signed_not_passed (account_of preset (place l)) m e), λ (e, _). cc)
passed_iff preset l m superuser = (λ e. cc, λ (e, _). cc)
passed_iff preset l m xcm =
    (λ e. (refl, passed-injective l m (some-injective _ _ e)), λ (_, e). rw e refl)

module _ (x : XcmBuilder) (c : Converts x) (b : EnsureBuilder) (k : EnsuresOrigins b) where
  heard_iff :
      (o : RuntimeOrigin)
      → (b.ensure_xcm (b.is_voice_of_body relay_location b.defense) o ≡ true)
        ↔ (o ≡ RuntimeOrigin.passed (staking_admin b))
  heard_iff o = rw (k.xcm_lem (b.is_voice_of_body relay_location b.defense) o) (go o)
    where
      go :
          (o : RuntimeOrigin)
          → (of_passed (b.is_voice_of_body relay_location b.defense) o ≡ true)
            ↔ (o ≡ RuntimeOrigin.passed (staking_admin b))
      go (RuntimeOrigin.passed l) = (
        λ e. ap (λ m. RuntimeOrigin.passed m) ((k.voice_lem b.defense l).0 e),
        λ e. (k.voice_lem b.defense l).1 (passed-injective l (staking_admin b) e),
      )
      go RuntimeOrigin.root = (λ e. cc, λ e. cc)
      go RuntimeOrigin.relay = (λ e. cc, λ e. cc)
      go (RuntimeOrigin.signed n) = (λ e. cc, λ e. cc)
      go (RuntimeOrigin.sibling_para n) = (λ e. cc, λ e. cc)

  not_root : (o : RuntimeOrigin) → o ≢ RuntimeOrigin.root → b.ensure_root o ≡ false
  not_root o apart = elim (Bool-cases (b.ensure_root o)) [
    | inl e ↦ elim (apart ((k.root_lem o).0 e)) [ ]
    | inr e ↦ e
  ]

  updates_iff :
      (o : RuntimeOrigin)
      → (collator_selection_update_origin b o ≡ true)
        ↔ ((o ≡ RuntimeOrigin.root) ⊎ (o ≡ RuntimeOrigin.passed (staking_admin b)))
  unfolding collator_selection_update_origin
  updates_iff o =
      let voice = b.is_voice_of_body relay_location b.defense in
      let split = or_iff (b.ensure_root o) (b.ensure_xcm voice o) in
      rw (k.either_lem b.ensure_root (b.ensure_xcm voice) o) (
        λ e. elim (split.0 e) [
          | inl r ↦ inl ((k.root_lem o).0 r)
          | inr p ↦ inr ((heard_iff o).0 p)
        ],
        elim [
          | inl r ↦ split.1 (inl ((k.root_lem o).1 r))
          | inr p ↦ split.1 (inr ((heard_iff o).1 p))
        ],
      )

  -- If the building blocks do what the SDK documents of them, the collators can be changed by root
  -- and by the voice of the staking admin's body at the relay chain, and by no other origin. So a
  -- message of another chain can change them only as an XCM origin from exactly that place, whose
  -- messages need not pay for their execution, and it can never do what is left to root: control the
  -- XCMP queue, administer pallet_xcm or force changes of assets.
  pub collator_selection_update_origin_iff :
      ((o : RuntimeOrigin)
        → (collator_selection_update_origin b o ≡ true)
          ↔ ((o ≡ RuntimeOrigin.root) ⊎ (o ≡ RuntimeOrigin.passed (staking_admin b))))
      × ((l : Location) (kind : OriginKind) (o : RuntimeOrigin)
          → transact_dispatch_origin x l kind ≡ some o
          → ((collator_selection_update_origin b o ≡ true) ↔ ((kind ≡ xcm) × (l ≡ staking_admin b)))
            × (controller_origin b o ≡ false)
            × (admin_origin b o ≡ false)
            × (force_origin b o ≡ false))
      × (contains (staking_admin b) ≡ true)
  unfolding controller_origin admin_origin force_origin contains
  collator_selection_update_origin_iff = (
    updates_iff,
    λ l kind o given.
        let origin = transact_dispatch_origin-origin_of x c l kind in
        let refused = not_root o (λ e. origin.1 (given ∙ ap some e)) in
        (
          (
            λ e. elim ((updates_iff o).0 e) [
              | inl r ↦ elim (origin.1 (given ∙ ap some r)) [ ]
              | inr p ↦
                  (passed_iff c.preset l (staking_admin b) kind).0
                    (sym origin.0 ∙ given ∙ ap some p)
            ],
            λ h.
                let passed = (passed_iff c.preset l (staking_admin b) kind).1 h in
                (updates_iff o).1 (inr (some-injective _ _ (sym given ∙ origin.0 ∙ passed))),
          ),
          refused,
          refused,
          refused,
        ),
    refl,
  )
