-- ===== src/Runtime/Pallets.antt =====
-- The pallets of the two runtimes with their indices, and the conversion of a call into one of the
-- revive pallet.
use ink_node.Base.{
  ℕ, ◌≡◌, refl, ◌≢◌, ◌↔◌, ap, Option, none, some, arith, ◌==◌, if◌then◌else◌, sym, ◌∙◌, subst,
}
use mathlib.Core.Option.{some-injective}

-- runtime/src/lib.rs.
pub data SoloPallet : Type 0 where
  system randomness_collective_flip utility timestamp balances authorship : SoloPallet
  transaction_payment sudo revive assets : SoloPallet

unfoldable pub solo_index : SoloPallet → ℕ
solo_index SoloPallet.system = 0
solo_index SoloPallet.randomness_collective_flip = 1
solo_index SoloPallet.utility = 2
solo_index SoloPallet.timestamp = 3
solo_index SoloPallet.balances = 4
solo_index SoloPallet.authorship = 5
solo_index SoloPallet.transaction_payment = 6
solo_index SoloPallet.sudo = 7
solo_index SoloPallet.revive = 8
solo_index SoloPallet.assets = 9

-- parachain-runtime/src/lib.rs.
pub data ParaPallet : Type 0 where
  system randomness_collective_flip utility timestamp balances authorship : ParaPallet
  transaction_payment sudo revive assets parachain_system parachain_info : ParaPallet
  collator_selection session aura aura_ext xcmp_queue polkadot_xcm : ParaPallet
  cumulus_xcm message_queue : ParaPallet

unfoldable pub para_index : ParaPallet → ℕ
para_index ParaPallet.system = 0
para_index ParaPallet.randomness_collective_flip = 1
para_index ParaPallet.utility = 2
para_index ParaPallet.timestamp = 3
para_index ParaPallet.balances = 4
para_index ParaPallet.authorship = 5
para_index ParaPallet.transaction_payment = 6
para_index ParaPallet.sudo = 7
para_index ParaPallet.revive = 10
para_index ParaPallet.assets = 11
para_index ParaPallet.parachain_system = 12
para_index ParaPallet.parachain_info = 13
para_index ParaPallet.collator_selection = 14
para_index ParaPallet.session = 15
para_index ParaPallet.aura = 16
para_index ParaPallet.aura_ext = 17
para_index ParaPallet.xcmp_queue = 18
para_index ParaPallet.polkadot_xcm = 19
para_index ParaPallet.cumulus_xcm = 20
para_index ParaPallet.message_queue = 21

-- The pallet of the same name in the parachain's runtime.
abbrev counterpart : SoloPallet → ParaPallet
counterpart SoloPallet.system = ParaPallet.system
counterpart SoloPallet.randomness_collective_flip = ParaPallet.randomness_collective_flip
counterpart SoloPallet.utility = ParaPallet.utility
counterpart SoloPallet.timestamp = ParaPallet.timestamp
counterpart SoloPallet.balances = ParaPallet.balances
counterpart SoloPallet.authorship = ParaPallet.authorship
counterpart SoloPallet.transaction_payment = ParaPallet.transaction_payment
counterpart SoloPallet.sudo = ParaPallet.sudo
counterpart SoloPallet.revive = ParaPallet.revive
counterpart SoloPallet.assets = ParaPallet.assets

-- `RuntimeCall`, for the call type of each pallet.
abbrev pub RuntimeCall : (ParaPallet → Type 0) → Type 0
RuntimeCall C = (p : ParaPallet) × C p

-- `TryFrom<RuntimeCall> for pallet_revive::Call<Runtime>`.
unfoldable pub try_from : (C : ParaPallet → Type 0) → RuntimeCall C → Option (C ParaPallet.revive)
try_from C (ParaPallet.revive, call) = some call
try_from C (_, call) = none

-- The two runtimes give a pallet one index exactly if it is neither the revive nor the assets pallet.
counterpart_index :
    (p : SoloPallet)
    → (para_index (counterpart p) ≡ solo_index p)
      ↔ ((p ≢ SoloPallet.revive) × (p ≢ SoloPallet.assets))
unfolding solo_index para_index
counterpart_index SoloPallet.revive = (λ e. absurd (omega arith), λ n. absurd (n.0 refl))
counterpart_index SoloPallet.assets = (λ e. absurd (omega arith), λ n. absurd (n.1 refl))
counterpart_index _ = (λ _. (λ e. cc, λ e. cc), λ _. refl)

-- The pallet at an index.
para_pallet : ℕ → Option ParaPallet
para_pallet i =
    if i == 0
    then some ParaPallet.system
    else if i == 1
    then some ParaPallet.randomness_collective_flip
    else if i == 2
    then some ParaPallet.utility
    else if i == 3
    then some ParaPallet.timestamp
    else if i == 4
    then some ParaPallet.balances
    else if i == 5
    then some ParaPallet.authorship
    else if i == 6
    then some ParaPallet.transaction_payment
    else if i == 7
    then some ParaPallet.sudo
    else if i == 10
    then some ParaPallet.revive
    else if i == 11
    then some ParaPallet.assets
    else if i == 12
    then some ParaPallet.parachain_system
    else if i == 13
    then some ParaPallet.parachain_info
    else if i == 14
    then some ParaPallet.collator_selection
    else if i == 15
    then some ParaPallet.session
    else if i == 16
    then some ParaPallet.aura
    else if i == 17
    then some ParaPallet.aura_ext
    else if i == 18
    then some ParaPallet.xcmp_queue
    else if i == 19
    then some ParaPallet.polkadot_xcm
    else if i == 20
    then some ParaPallet.cumulus_xcm
    else if i == 21
    then some ParaPallet.message_queue
    else none

para_pallet-para_index : (p : ParaPallet) → para_pallet (para_index p) ≡ some p
unfolding para_pallet para_index
para_pallet-para_index ParaPallet.system = refl
para_pallet-para_index ParaPallet.randomness_collective_flip = refl
para_pallet-para_index ParaPallet.utility = refl
para_pallet-para_index ParaPallet.timestamp = refl
para_pallet-para_index ParaPallet.balances = refl
para_pallet-para_index ParaPallet.authorship = refl
para_pallet-para_index ParaPallet.transaction_payment = refl
para_pallet-para_index ParaPallet.sudo = refl
para_pallet-para_index ParaPallet.revive = refl
para_pallet-para_index ParaPallet.assets = refl
para_pallet-para_index ParaPallet.parachain_system = refl
para_pallet-para_index ParaPallet.parachain_info = refl
para_pallet-para_index ParaPallet.collator_selection = refl
para_pallet-para_index ParaPallet.session = refl
para_pallet-para_index ParaPallet.aura = refl
para_pallet-para_index ParaPallet.aura_ext = refl
para_pallet-para_index ParaPallet.xcmp_queue = refl
para_pallet-para_index ParaPallet.polkadot_xcm = refl
para_pallet-para_index ParaPallet.cumulus_xcm = refl
para_pallet-para_index ParaPallet.message_queue = refl

-- Two pallets of the parachain's runtime with one index are one pallet.
para_index-injective : (p q : ParaPallet) → para_index p ≡ para_index q → p ≡ q
para_index-injective p q h =
    some-injective p q
      (sym (para_pallet-para_index p) ∙ ap para_pallet h ∙ para_pallet-para_index q)

-- A call converts into a call of the revive pallet exactly if it is one, and into that one.
try_from_iff :
    (C : ParaPallet → Type 0) (x : RuntimeCall C) (call : C ParaPallet.revive)
    → (try_from C x ≡ some call) ↔ (x ≡ (ParaPallet.revive, call))
unfolding try_from
try_from_iff C (ParaPallet.revive, c) call = (
  λ e. ap (λ x. (ParaPallet.revive, x)) (some-injective c call e),
  λ e. subst (λ x. try_from C x ≡ some call) (sym e) refl,
)
try_from_iff C (_, c) call = (λ e. cc, λ e. subst (λ x. try_from C x ≡ some call) (sym e) refl)
