-- ===== src/Runtime/Messages/Admission.antt =====
-- parachain-runtime/src/xcm_config.rs: what the barrier lets through.
use ink_node.Base.{
  ℕ, ◌≡◌, ◌↔◌, ◌⊎◌, inl, inr, ap, sym, ◌∙◌, and_iff, or_iff, not_iff, Bool, Bool-cases, true, false,
  not, ◌&&◌, ◌||◌, Option, none, some, Option-cases, List, [], ◌∷◌,
}
use mathlib.Core.List.{Memᴰ}
use ink_node.Runtime.Origins.{plurality, Location, contains, contains_iff}
use ink_node.Runtime.Messages.{XcmBuilder, Barrier, everything, universal_location, barrier}

-- What the barriers of xcm_builder do: the outermost cuts off a trailing topic, a denial goes
-- before any permission, a recursive denial looks into the messages that instructions hold, two
-- permissions are tried one after the other, and the origin is computed from the leading
-- instructions.
pub record Builds (x : XcmBuilder) : Type 0 where
  pub without_topic : x.Message → x.Message
  pub computed : ℕ → ℕ → x.Message → Option x.Message
  pub origin : x.Message → Location
  pub pays : x.Message → Bool
  pub asks_unpaid : x.Message → Bool
  pub trailing_lem :
      (a : Barrier x.Message) (m : x.Message) → x.trailing_set_topic_as_id a m ≡ a (without_topic m)
  pub deny_lem :
      (d a : Barrier x.Message) (m : x.Message) → x.deny_then_try d a m ≡ (not (d m) && a m)
  pub any_lem : (a b : Barrier x.Message) (m : x.Message) → x.any_of (a ∷ b ∷ []) m ≡ (a m || b m)
  pub no_origin_lem :
      (tries : List (Barrier x.Message)) (para_id n : ℕ) (m : x.Message)
      → computed para_id n m ≡ none
      → x.with_computed_origin tries (universal_location para_id) n m ≡ false
  pub origin_lem :
      (tries : List (Barrier x.Message)) (para_id n : ℕ) (m c : x.Message)
      → computed para_id n m ≡ some c
      → x.with_computed_origin tries (universal_location para_id) n m ≡ x.any_of tries c
  pub nested : x.Message → List x.Message
  pub deny_own_lem :
      (d : Barrier x.Message) (m : x.Message) → d m ≡ true → x.deny_recursively d m ≡ true
  pub deny_nested_lem :
      (d : Barrier x.Message) (m n : x.Message)
      → Memᴰ n (nested m)
      → x.deny_recursively d n ≡ true
      → x.deny_recursively d m ≡ true
  pub paid_lem :
      (p : Location → Bool) (m : x.Message)
      → x.allow_top_level_paid_execution_from p m ≡ (p (origin m) && pays m)
  pub unpaid_lem :
      (p : Location → Bool) (m : x.Message)
      → x.allow_explicit_unpaid_execution_from p m ≡ (p (origin m) && asks_unpaid m)

-- A message, and those that its instructions hold, at any depth.
pub data Within {x : XcmBuilder} (b : Builds x) (n : x.Message) : x.Message → Type 0 where
  itself : Within b n n
  inside : {m part : x.Message} → Memᴰ part (b.nested m) → Within b n part → Within b n m

denied_within :
    {x : XcmBuilder} (b : Builds x) (d : Barrier x.Message) (n m : x.Message)
    → Within b n m
    → d n ≡ true
    → x.deny_recursively d m ≡ true
denied_within b d n _ itself denied = b.deny_own_lem d n denied
denied_within b d n _ (inside {m} {part} held deeper) denied =
    b.deny_nested_lem d m part held (denied_within b d n part deeper denied)

abbrev pub IsPrivileged : Location → Type 0
IsPrivileged l =
    (l.parents ≡ 1)
    × ((l.interior ≡ []) ⊎ ((id : ℕ) × (part : ℕ) × (l.interior ≡ plurality id part ∷ [])))

module _ (x : XcmBuilder) (b : Builds x) (para_id : ℕ) where
  -- Whether a message, seen from its computed origin, pays or need not pay.
  abbrev pub IsAdmitted : x.Message → Type 0
  IsAdmitted c = (b.pays c ≡ true) ⊎ (IsPrivileged (b.origin c) × (b.asks_unpaid c ≡ true))

  any_of_iff :
      (c : x.Message)
      → (x.any_of
            (x.allow_top_level_paid_execution_from everything
              ∷ x.allow_explicit_unpaid_execution_from contains
              ∷ [])
            c
          ≡ true)
        ↔ IsAdmitted c
  any_of_iff c =
      let top = x.allow_top_level_paid_execution_from everything in
      let free = x.allow_explicit_unpaid_execution_from contains in
      rw (b.any_lem top free c, b.paid_lem everything c, b.unpaid_lem contains c)
        (let split = or_iff (b.pays c) (contains (b.origin c) && b.asks_unpaid c) in
          let both = and_iff (contains (b.origin c)) (b.asks_unpaid c) in
          let let_in = contains_iff (b.origin c) in
          (
            λ e. elim (split.0 e) [
              | inl p ↦ inl p
              | inr q ↦ inr (let_in.0 (both.0 q).0, (both.0 q).1)
            ],
            elim [ inl p ↦ split.1 (inl p) | inr (l, q) ↦ split.1 (inr (both.1 (let_in.1 l, q))) ],
          ))

  -- The second of the permissions, on a message without its topic.
  computed_iff :
      (tries : List (Barrier x.Message)) (n : ℕ) (m : x.Message)
      → (x.with_computed_origin tries (universal_location para_id) n m ≡ true)
        ↔ ((c : x.Message) × (b.computed para_id n m ≡ some c) × (x.any_of tries c ≡ true))
  computed_iff tries n m = elim (Option-cases (b.computed para_id n m)) [
    | inl e ↦
        let shut = b.no_origin_lem tries para_id n m e in
        (λ p. let absurd = sym shut ∙ p in cc, λ (c, e', _). let absurd = sym e ∙ e' in cc)
    | inr (c, e) ↦
        let seen = b.origin_lem tries para_id n m c e in
        (λ p. (c, e, sym seen ∙ p), λ (c', e', p). b.origin_lem tries para_id n m c' e' ∙ p)
  ]

  passes_iff :
      (m : x.Message)
      → let m' = b.without_topic m in
        (barrier x para_id m ≡ true) ↔ (
          (x.deny_recursively x.deny_reserve_transfer_to_relay_chain m' ≡ false)
          × ((x.take_weight_credit m' ≡ true)
              ⊎ ((c : x.Message) × (b.computed para_id 8 m' ≡ some c) × IsAdmitted c)))
  unfolding barrier
  passes_iff m =
      let m' = b.without_topic m in
      let deny = x.deny_recursively x.deny_reserve_transfer_to_relay_chain in
      let tries =
        x.allow_top_level_paid_execution_from everything
        ∷ x.allow_explicit_unpaid_execution_from contains
        ∷ [] in
      let late = x.with_computed_origin tries (universal_location para_id) 8 in
      let permit = x.any_of (x.take_weight_credit ∷ late ∷ []) in
      let whole =
        b.trailing_lem (x.deny_then_try deny permit) m
        ∙ b.deny_lem deny permit m'
        ∙ ap (λ p. not (deny m') && p) (b.any_lem x.take_weight_credit late m') in
      let both = and_iff (not (deny m')) (x.take_weight_credit m' || late m') in
      let split = or_iff (x.take_weight_credit m') (late m') in
      let seen = computed_iff tries 8 m' in
      (
        λ e.
            let h = both.0 (sym whole ∙ e) in
            (
              (not_iff (deny m')).0 h.0,
              elim (split.0 h.1) [
                | inl p ↦ inl p
                | inr p ↦ let s = seen.0 p in inr (s.0, s.1, (any_of_iff s.0).0 s.2)
              ],
            ),
        λ (d, h).
            whole
            ∙ both.1 (
              (not_iff (deny m')).1 d,
              elim h [
                | inl p ↦ split.1 (inl p)
                | inr (c, e, p) ↦ split.1 (inr (seen.1 (c, e, (any_of_iff c).1 p)))
              ],
            ),
      )

  -- If the building blocks do what xcm_builder documents of them, a message is let through exactly
  -- if, without its trailing topic, the recursive denial of reserve transfers to the relay chain
  -- does not catch it and either its weight is covered by its credit, or, seen from the origin that
  -- its leading instructions compute, it pays for its execution, or asks for free execution as the
  -- parent or a plurality of a body at the parent. So no message that is let through is, or holds at
  -- any depth, a reserve transfer to the relay chain.
  pub barrier_iff :
      (m : x.Message)
      → let m' = b.without_topic m in
        ((barrier x para_id m ≡ true) ↔ (
          (x.deny_recursively x.deny_reserve_transfer_to_relay_chain m' ≡ false)
          × ((x.take_weight_credit m' ≡ true)
              ⊎ ((c : x.Message) × (b.computed para_id 8 m' ≡ some c) × IsAdmitted c))))
        × (barrier x para_id m ≡ true
            → (n : x.Message) → Within b n m'
            → x.deny_reserve_transfer_to_relay_chain n ≡ false)
  barrier_iff m = (
    passes_iff m,
    λ passes n within. elim (Bool-cases (x.deny_reserve_transfer_to_relay_chain n)) [
      | inl denied ↦
          let caught =
            denied_within b x.deny_reserve_transfer_to_relay_chain n (b.without_topic m) within
              denied in
          let absurd = sym ((passes_iff m).0 passes).0 ∙ caught in cc
      | inr fine ↦ fine
    ],
  )
