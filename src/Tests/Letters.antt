-- ===== src/Tests/Letters.antt =====
-- Concrete messages, and building blocks for them that do what is documented.
use ink_node.Base.{
  subst, sym, ◌∙◌, or_iff, ℕ, ◌≡◌, ◌≢◌, refl, ap, Bool, true, false, not, ◌&&◌, ◌||◌, Option, none,
  some, arith, ◌==◌, if◌then◌else◌, Bool-cases, inl, inr, map_some, List, [], ◌∷◌,
}
use mathlib.Core.List.{Memᴰ}
use mathlib.Core.Option.{some-injective}
use ink_node.Runtime.Origins.{Junction, parachain, Location}
use ink_node.Runtime.Messages.{RuntimeOrigin, ConvertLocation, ConvertOrigin, XcmBuilder}
use ink_node.Runtime.Messages.Admission.{Builds}
use ink_node.Runtime.Messages.Senders.{SenderBuilder, signed_location, or_root, Ensures}
use ink_node.Runtime.Messages.Assets.{
  Fungibility, fungible, non_fungible, Deposit, asset_not_found, AssetBuilder, ancestor, adapted,
  or_next, Deposits,
}
use ink_node.Runtime.Messages.Dispatch.{
  place, or_else, aliased, at_parent, at_sibling, if_native, if_sovereign, if_xcm, Converts,
}

-- A message by its origin and the answers of the barriers.
pub record Letter : Type 0 where
  pub sender : Location
  pub credit : Bool
  pub paying : Bool
  pub asking : Bool
  pub reserve : Bool
  pub holds_transfer : Bool

-- A reserve transfer to the relay chain.
abbrev pub transfer : Letter
transfer = record {
  sender = record { parents = 1; interior = [] };
  credit = false;
  paying = false;
  asking = false;
  reserve = true;
  holds_transfer = false;
}

abbrev pub any_letter : List (Letter → Bool) → Letter → Bool
any_letter [] m = false
any_letter (a ∷ others) m = a m || any_letter others m

abbrev pub first_of : List ConvertLocation → ConvertLocation
first_of [] l = none
first_of (f ∷ fs) l = or_else (f l) (first_of fs l)

abbrev pub first_kind : List ConvertOrigin → ConvertOrigin
first_kind [] l k = none
first_kind (f ∷ fs) l k = or_else (f l k) (first_kind fs l k)

abbrev pub letters : XcmBuilder
letters = record {
  Message = Letter;
  trailing_set_topic_as_id = λ a m. a m;
  deny_then_try = λ d a m. not (d m) && a m;
  deny_recursively = λ d m. d m || (m.holds_transfer && d transfer);
  deny_reserve_transfer_to_relay_chain = λ m. m.reserve;
  any_of = any_letter;
  take_weight_credit = λ m. m.credit;
  with_computed_origin = λ tries u n m. any_letter tries m;
  allow_top_level_paid_execution_from = λ p m. p m.sender && m.paying;
  allow_explicit_unpaid_execution_from = λ p m. p m.sender && m.asking;
  first_account = first_of;
  account_id32_aliases = λ network l. aliased (place l);
  parent_is_preset = λ l. at_parent 77 (place l);
  first_origin = first_kind;
  sovereign_signed_via_location = λ f l k. if_sovereign (map_some RuntimeOrigin.signed (f l)) k;
  relay_chain_as_native = λ o l k. if_native (at_parent o (place l)) k;
  sibling_parachain_as_native = λ l k. if_native (at_sibling (place l)) k;
  signed_account_id32_as_native =
      λ network l k. if_native (map_some RuntimeOrigin.signed (aliased (place l))) k;
  xcm_passthrough = λ l k. if_xcm (some (RuntimeOrigin.passed l)) k;
}

pub or_false : (b : Bool) → (b || false) ≡ b
or_false true = refl
or_false false = refl

pub nested_denied :
    (d : Letter → Bool) (m n : Letter) (holds : Bool)
    → Memᴰ n (if holds then transfer ∷ [] else [])
    → (d n || (n.holds_transfer && d transfer)) ≡ true
    → (d m || (holds && d transfer)) ≡ true
nested_denied d m n true (Memᴰ.head same) deep =
    let inner = subst (λ k. (d k || (k.holds_transfer && d transfer)) ≡ true) same deep in
    (or_iff (d m) (d transfer)).1 (inr (sym (or_false (d transfer)) ∙ inner))
nested_denied d m n true (Memᴰ.tail more) deep = elim more [ ]
nested_denied d m n false held deep = elim held [ ]

pub unseen : {A : Type 0} (m : Letter) → some m ≡ none → A
unseen m e = cc

abbrev pub letters-Builds : Builds letters
letters-Builds = record {
  without_topic = λ m. m;
  computed = λ para_id n m. some m;
  origin = λ m. m.sender;
  pays = λ m. m.paying;
  asks_unpaid = λ m. m.asking;
  trailing_lem = λ a m. refl;
  deny_lem = λ d a m. refl;
  any_lem = λ a b m. ap (λ c. a m || c) (or_false (b m));
  no_origin_lem = λ tries para_id n m e. unseen m e;
  origin_lem = λ tries para_id n m c e. ap (any_letter tries) (some-injective m c e);
  nested = λ m. if m.holds_transfer then transfer ∷ [] else [];
  deny_own_lem = λ d m own. rw own refl;
  deny_nested_lem = λ d m n held deep. nested_denied d m n m.holds_transfer held deep;
  paid_lem = λ p m. refl;
  unpaid_lem = λ p m. refl;
}

abbrev pub letter : Letter
letter = record {
  sender = record { parents = 1; interior = [] };
  credit = false;
  paying = false;
  asking = true;
  reserve = false;
  holds_transfer = false;
}

pub or_none : (o : Option ℕ) → or_else o none ≡ o
or_none none = refl
or_none (some a) = refl

abbrev pub letters-Converts : Converts letters
letters-Converts = record {
  preset = 77;
  account_lem = λ f g l. ap (or_else (f l)) (or_none (g l));
  aliases_lem = λ l. refl;
  preset_lem = λ l. refl;
  nil_lem = λ l k. refl;
  cons_lem = λ f fs l k. refl;
  sovereign_lem = λ f l k. refl;
  relay_lem = λ o l k. refl;
  sibling_lem = λ l k. refl;
  signed_lem = λ l k. refl;
  passthrough_lem = λ l k. refl;
}

abbrev pub neighbour : Location
neighbour = record { parents = 1; interior = parachain 2000 ∷ [] }

-- The amount of a fungible asset of an ancestor.
abbrev pub amount_at : ℕ → ℕ → List Junction → Fungibility → Option ℕ
amount_at k parents [] (fungible n) = if parents == k then some n else none
amount_at k parents [] (non_fungible n) = none
amount_at k parents (j ∷ js) f = none

pub amount_at-none :
    (k parents : ℕ) (js : List Junction) (f : Fungibility)
    → ◌≢◌ {A = Location} (record { parents = parents; interior = js }) (ancestor k)
    → amount_at k parents js f ≡ none
amount_at-none k parents [] (fungible n) apart = elim (Bool-cases (parents == k)) [
  | inl e ↦
      let same : parents ≡ k = ground (arith, e) in
      elim (apart (ap (λ (p : ℕ). ancestor p) same)) [ ]
  | inr e ↦ rw e refl
]
amount_at-none k parents [] (non_fungible n) apart = refl
amount_at-none k parents (j ∷ js) f apart = refl

pub amount_at_unique :
    (k parents : ℕ) (js : List Junction) (n : ℕ) → amount_at k parents js (non_fungible n) ≡ none
amount_at_unique k parents [] n = refl
amount_at_unique k parents (j ∷ js) n = refl

abbrev pub first_known : {L : Type 0} → List (Deposit L) → Deposit L
first_known [] asset who s = (asset_not_found, s)
first_known (d ∷ ds) asset who s = or_next (d asset who s) (first_known ds asset who)

-- A ledger is the deposits so far.
abbrev pub deposits : AssetBuilder
deposits = record {
  Ledger = List (ℕ × ℕ);
  deposit_creating = λ who n s. (who, n) ∷ s;
  is_concrete = λ l asset. amount_at l.parents asset.id.parents asset.id.interior asset.fun;
  currency_adapter = λ f m c asset who s. adapted f (m asset) (c who) s;
  first_deposit = first_known;
}

pub deposits-Deposits : Deposits deposits
deposits-Deposits = record {
  adapter_lem = λ m c asset who s. refl;
  nil_lem = λ asset who s. refl;
  cons_lem = λ d ds asset who s. refl;
  concrete_lem = λ k n. ground arith;
  other_lem = λ k asset apart. amount_at-none k asset.id.parents asset.id.interior asset.fun apart;
  unique_lem = λ k n i. amount_at_unique k i.parents i.interior n;
}

abbrev pub test_senders : SenderBuilder
test_senders = record {
  signed_to_account_id32 = signed_location;
  ensure_xcm_origin = λ c o. or_root (c o) o;
}

pub test_senders-Ensures : Ensures test_senders
test_senders-Ensures = record { signed_lem = λ network o. refl; ensure_lem = λ c o. refl }
