-- ===== src/Runtime/Messages/Dispatch.antt =====
-- parachain-runtime/src/xcm_config.rs: the account of a location, and the origin that a message's
-- call is dispatched with.
use ink_node.Base.{
  ℕ, ◌≡◌, ◌≢◌, refl, ap, sym, ◌∙◌, ◌==◌, if◌then◌else◌, Option, none, some, map_some, List, [], ◌∷◌,
}
use ink_node.Runtime.Origins.{Junction, account_id32, parachain, Location}
use ink_node.Runtime.Messages.{
  OriginKind, native, sovereign_account, superuser, xcm, RuntimeOrigin, ConvertLocation,
  ConvertOrigin, XcmBuilder, relay_network, location_to_account_id, transact_dispatch_origin,
}

-- What a location names, as far as the converters know it.
pub data Place : Type 0 where
  parent elsewhere : Place
  sibling own_account : ℕ → Place

abbrev inside : List Junction → Place
inside (account_id32 none id ∷ []) = own_account id
inside _ = elsewhere

abbrev outside : List Junction → Place
outside [] = parent
outside (parachain id ∷ []) = sibling id
outside _ = elsewhere

abbrev pub place : Location → Place
place l =
    if l.parents == 0
    then inside l.interior
    else (if l.parents == 1 then outside l.interior else elsewhere)

abbrev pub or_else : {A : Type 0} → Option A → Option A → Option A
or_else none o = o
or_else (some a) o = some a

-- The account of a place, and the origin of a place for a kind, for the parent's account.
abbrev pub account_of : ℕ → Place → Option ℕ
account_of preset parent = some preset
account_of preset (own_account id) = some id
account_of preset _ = none

abbrev pub native_of : Place → Option RuntimeOrigin
native_of parent = some RuntimeOrigin.relay
native_of (sibling id) = some (RuntimeOrigin.sibling_para id)
native_of (own_account id) = some (RuntimeOrigin.signed id)
native_of elsewhere = none

abbrev pub origin_of : ℕ → Location → OriginKind → Option RuntimeOrigin
origin_of preset l native = native_of (place l)
origin_of preset l sovereign_account = map_some RuntimeOrigin.signed (account_of preset (place l))
origin_of preset l superuser = none
origin_of preset l xcm = some (RuntimeOrigin.passed l)

-- What each converter does by itself.
abbrev pub aliased : Place → Option ℕ
aliased (own_account id) = some id
aliased _ = none

abbrev pub at_parent : {A : Type 0} → A → Place → Option A
at_parent a parent = some a
at_parent a _ = none

abbrev pub at_sibling : Place → Option RuntimeOrigin
at_sibling (sibling id) = some (RuntimeOrigin.sibling_para id)
at_sibling _ = none

abbrev pub if_native : Option RuntimeOrigin → OriginKind → Option RuntimeOrigin
if_native o native = o
if_native o _ = none

abbrev pub if_sovereign : Option RuntimeOrigin → OriginKind → Option RuntimeOrigin
if_sovereign o sovereign_account = o
if_sovereign o _ = none

abbrev pub if_xcm : Option RuntimeOrigin → OriginKind → Option RuntimeOrigin
if_xcm o xcm = o
if_xcm o _ = none

-- What xcm_builder documents of its converters: a tuple takes the first that succeeds, each serves
-- one kind, and without a network only accounts that name none are this chain's.
pub record Converts (x : XcmBuilder) : Type 0 where
  pub preset : ℕ
  pub account_lem :
      (f g : ConvertLocation) (l : Location) → x.first_account (f ∷ g ∷ []) l ≡ or_else (f l) (g l)
  pub aliases_lem : (l : Location) → x.account_id32_aliases none l ≡ aliased (place l)
  pub preset_lem : (l : Location) → x.parent_is_preset l ≡ at_parent preset (place l)
  pub nil_lem : (l : Location) (k : OriginKind) → x.first_origin [] l k ≡ none
  pub cons_lem :
      (f : ConvertOrigin) (fs : List ConvertOrigin) (l : Location) (k : OriginKind)
      → x.first_origin (f ∷ fs) l k ≡ or_else (f l k) (x.first_origin fs l k)
  pub sovereign_lem :
      (f : ConvertLocation) (l : Location) (k : OriginKind)
      → x.sovereign_signed_via_location f l k ≡ if_sovereign (map_some RuntimeOrigin.signed (f l)) k
  pub relay_lem :
      (o : RuntimeOrigin) (l : Location) (k : OriginKind)
      → x.relay_chain_as_native o l k ≡ if_native (at_parent o (place l)) k
  pub sibling_lem :
      (l : Location) (k : OriginKind)
      → x.sibling_parachain_as_native l k ≡ if_native (at_sibling (place l)) k
  pub signed_lem :
      (l : Location) (k : OriginKind)
      → x.signed_account_id32_as_native none l k
        ≡ if_native (map_some RuntimeOrigin.signed (aliased (place l))) k
  pub passthrough_lem :
      (l : Location) (k : OriginKind)
      → x.xcm_passthrough l k ≡ if_xcm (some (RuntimeOrigin.passed l)) k

aliased_or_preset : (n : ℕ) (p : Place) → or_else (aliased p) (at_parent n p) ≡ account_of n p
aliased_or_preset n parent = refl
aliased_or_preset n elsewhere = refl
aliased_or_preset n (sibling id) = refl
aliased_or_preset n (own_account id) = refl

natives :
    (p : Place)
    → or_else
        (at_parent RuntimeOrigin.relay p)
        (or_else (at_sibling p) (or_else (map_some RuntimeOrigin.signed (aliased p)) none))
      ≡ native_of p
natives parent = refl
natives elsewhere = refl
natives (sibling id) = refl
natives (own_account id) = refl

or_else-none : {A : Type 0} (o : Option A) → or_else o none ≡ o
or_else-none none = refl
or_else-none (some a) = refl

module _ (x : XcmBuilder) (c : Converts x) where
  pub location_to_account_id_lem :
      (l : Location) → location_to_account_id x l ≡ account_of c.preset (place l)
  unfolding location_to_account_id
  location_to_account_id_lem l =
      rw
        (
          c.account_lem (x.account_id32_aliases relay_network) x.parent_is_preset l,
          c.aliases_lem l,
          c.preset_lem l,
        )
        (aliased_or_preset c.preset (place l))

  step :
      (f : ConvertOrigin) (fs : List ConvertOrigin) (o rest : Option RuntimeOrigin) (l : Location)
      (k : OriginKind)
      → f l k ≡ o
      → x.first_origin fs l k ≡ rest
      → x.first_origin (f ∷ fs) l k ≡ or_else o rest
  step f fs o rest l k e e' = rw (c.cons_lem f fs l k, e, e') refl

  -- The five converters one after the other.
  chained :
      (l : Location) (k : OriginKind)
      → transact_dispatch_origin x l k
        ≡ or_else (if_sovereign (map_some RuntimeOrigin.signed (account_of c.preset (place l))) k) (
            or_else (if_native (at_parent RuntimeOrigin.relay (place l)) k) (
              or_else (if_native (at_sibling (place l)) k) (
                or_else
                  (if_native (map_some RuntimeOrigin.signed (aliased (place l))) k)
                  (or_else (if_xcm (some (RuntimeOrigin.passed l)) k) none))))
  unfolding transact_dispatch_origin
  chained l k =
      let sovereign =
        c.sovereign_lem (location_to_account_id x) l k
        ∙ ap (λ a. if_sovereign (map_some RuntimeOrigin.signed a) k)
            (location_to_account_id_lem l) in
      step _ _ _ _ l k sovereign (
        step _ _ _ _ l k (c.relay_lem RuntimeOrigin.relay l k) (
          step _ _ _ _ l k (c.sibling_lem l k) (
            step _ _ _ _ l k (c.signed_lem l k)
              (step _ _ _ _ l k (c.passthrough_lem l k) (c.nil_lem l k)))))

  refined :
      (l : Location) (k : OriginKind) → transact_dispatch_origin x l k ≡ origin_of c.preset l k
  refined l native = chained l native ∙ natives (place l)
  refined l sovereign_account = chained l sovereign_account ∙ or_else-none _
  refined l superuser = chained l superuser
  refined l xcm = chained l xcm

  native_not_root : (p : Place) → native_of p ≢ some RuntimeOrigin.root
  native_not_root parent e = cc
  native_not_root elsewhere e = cc
  native_not_root (sibling id) e = cc
  native_not_root (own_account id) e = cc

  signed_not_root : (o : Option ℕ) → map_some RuntimeOrigin.signed o ≢ some RuntimeOrigin.root
  signed_not_root none e = cc
  signed_not_root (some a) e = cc

  spec_not_root : (l : Location) (k : OriginKind) → origin_of c.preset l k ≢ some RuntimeOrigin.root
  spec_not_root l native e = native_not_root (place l) e
  spec_not_root l sovereign_account e = signed_not_root (account_of c.preset (place l)) e
  spec_not_root l superuser e = cc
  spec_not_root l xcm e = cc

  -- If the building blocks do what xcm_builder documents of them, the five converters together give
  -- the origin that the place and the kind call for, whatever else they might try: natively the
  -- relay chain, a sibling or an own account, as a sovereign the account of the parent or an own
  -- account, as an XCM origin the location itself, and nothing to a superuser. So no message's call
  -- is dispatched as root.
  pub transact_dispatch_origin-origin_of :
      (l : Location) (k : OriginKind)
      → (transact_dispatch_origin x l k ≡ origin_of c.preset l k)
        × (transact_dispatch_origin x l k ≢ some RuntimeOrigin.root)
  transact_dispatch_origin-origin_of l k =
      (refined l k, λ e. spec_not_root l k (sym (refined l k) ∙ e))
