-- ===== src/Runtime/Origins.antt =====
-- parachain-runtime/src/xcm_config.rs: `ParentOrParentsPlurality`, the origins whose messages are
-- executed unpaid.
use ink_node.Base.{
  ℕ, ◌≡◌, ◌↔◌, ◌⊎◌, inl, inr, refl, Bool, true, false, Option, List, [], ◌∷◌, ◌&&◌, ◌==◌, arith,
}

-- A junction of a location: a body's plurality, an account on a network, a parachain, or any other,
-- by a number.
pub data Junction : Type 0 where
  plurality : ℕ → ℕ → Junction
  account_id32 : Option ℕ → ℕ → Junction
  parachain : ℕ → Junction
  junction : ℕ → Junction

pub record Location : Type 0 where
  pub parents : ℕ
  pub interior : List Junction

-- `[] | [Plurality { .. }]`.
unfoldable pub nothing_or_plurality : List Junction → Bool
nothing_or_plurality [] = true
nothing_or_plurality (plurality id part ∷ []) = true
nothing_or_plurality _ = false

unfoldable pub contains : Location → Bool
unfolding nothing_or_plurality
contains location = location.parents == 1 && nothing_or_plurality location.interior

nothing_or_plurality_iff :
    (js : List Junction)
    → (nothing_or_plurality js ≡ true)
      ↔ ((js ≡ []) ⊎ ((id : ℕ) × (part : ℕ) × (js ≡ plurality id part ∷ [])))
unfolding nothing_or_plurality
nothing_or_plurality_iff [] = (λ _. inl refl, λ _. refl)
nothing_or_plurality_iff (plurality id part ∷ []) = (λ _. inr (id, part, refl), λ _. refl)
nothing_or_plurality_iff (plurality id part ∷ k ∷ ks) =
    (λ e. cc, elim [ inl e ↦ cc | inr (_, _, e) ↦ cc ])
nothing_or_plurality_iff (account_id32 network id ∷ ks) =
    (λ e. cc, elim [ inl e ↦ cc | inr (_, _, e) ↦ cc ])
nothing_or_plurality_iff (parachain id ∷ ks) = (λ e. cc, elim [ inl e ↦ cc | inr (_, _, e) ↦ cc ])
nothing_or_plurality_iff (junction n ∷ ks) = (λ e. cc, elim [ inl e ↦ cc | inr (_, _, e) ↦ cc ])

-- An origin is let through unpaid exactly if it is the parent itself or a plurality of a body right
-- at the parent.
pub contains_iff :
    (l : Location)
    → (contains l ≡ true) ↔ (
        (l.parents ≡ 1)
        × ((l.interior ≡ []) ⊎ ((id : ℕ) × (part : ℕ) × (l.interior ≡ plurality id part ∷ []))))
unfolding contains
contains_iff l = (
  λ e. (ground arith, (nothing_or_plurality_iff l.interior).0 (ground arith)),
  λ h. ground (arith, (nothing_or_plurality_iff l.interior).1 h.1),
)
