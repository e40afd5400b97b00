-- ===== src/Runtime/Configs/Consensus.antt =====
-- parachain-runtime/src/lib.rs: the configurations of the session, Aura and collator selection
-- pallets, and how the turns of the collators fit them.
use ink_node.Base.{
  ℕ, ◌+◌, ◌-◌, ◌*◌, ◌%◌, ◌≤◌, ◌<◌, ◌≡◌, refl, ap, sym, ◌∙◌, arith, leb, Bool, false, Bool-cases,
  inl, inr, Option, none, String,
}
use native.Mathlib.Nat.{mod-lt, mod-add-mod, mod-eq_of_lt, add-mod_left}
use ink_node.Runtime.Units.{hours}
use ink_node.Runtime.Schedules.{
  period, offset, kick_threshold, max_invulnerables, aura_slot, minimum_period,
}
use ink_node.Runtime.Pallets.{ParaPallet}
use ink_node.Runtime.Configs.{WeightInfo, unit_weights}

-- `validator_id_of` is `IdentityCollator`, and sessions end as `PeriodicSessions` with this period
-- and offset say. A `KeyDeposit` of `()` is 0.
pub record SessionConfig : Type 0 where
  pub validator_id_of : ℕ → ℕ
  pub should_end_session : ℕ × ℕ
  pub next_session_rotation : ℕ × ℕ
  pub session_manager : ParaPallet
  pub disabling_strategy : Option ParaPallet
  pub currency : ParaPallet
  pub key_deposit : ℕ
  pub weight_info : WeightInfo

unfoldable pub session_config : (ℕ → ℕ) → SessionConfig
session_config identity_collator = record {
  validator_id_of = identity_collator;
  should_end_session = (period, offset);
  next_session_rotation = (period, offset);
  session_manager = ParaPallet.collator_selection;
  disabling_strategy = none;
  currency = ParaPallet.balances;
  key_deposit = 0;
  weight_info = unit_weights;
}

pub record AuraConfig : Type 0 where
  pub disabled_validators : Option ParaPallet
  pub max_authorities : ℕ
  pub allow_multiple_blocks_per_slot : Bool
  pub slot_duration : ℕ

unfoldable pub aura_config : (ℕ → ℕ) → AuraConfig
aura_config minimum_period_times_two = record {
  disabled_validators = none;
  max_authorities = 100_000;
  allow_multiple_blocks_per_slot = false;
  slot_duration = aura_slot minimum_period_times_two;
}

abbrev pub pot_id : String
pot_id = "PotStake"

abbrev pub session_length : ℕ
session_length = 6 * hours

-- `update_origin` is modelled with the messages.
pub record CollatorSelectionConfig : Type 0 where
  pub currency : ParaPallet
  pub pot_id : String
  pub max_candidates : ℕ
  pub min_eligible_collators : ℕ
  pub max_invulnerables : ℕ
  pub kick_threshold : ℕ
  pub validator_id_of : ℕ → ℕ
  pub validator_registration : ParaPallet
  pub weight_info : WeightInfo

unfoldable pub collator_selection_config : (ℕ → ℕ) → CollatorSelectionConfig
collator_selection_config identity_collator = record {
  currency = ParaPallet.balances;
  pot_id = pot_id;
  max_candidates = 100;
  min_eligible_collators = 4;
  max_invulnerables = max_invulnerables;
  kick_threshold = kick_threshold;
  validator_id_of = identity_collator;
  validator_registration = ParaPallet.session;
  weight_info = unit_weights;
}

-- In each run of `n` numbers there is one for each remainder.
next_turn : (n i s : ℕ) → i < n → (t : ℕ) × (s ≤ t) × (t < s + n) × (t % n ≡ i)
next_turn n i s below = elim (Bool-cases (leb (s % n) i)) [
  | inl soon ↦
      let r : s % n ≤ i = ground (arith, soon) in
      let step = i - s % n in
      let reached : s % n + step ≡ i = omega (arith, r) in
      (
        s + step,
        omega arith,
        omega (arith, below, r),
        sym (mod-add-mod s n step) ∙ ap (λ (k : ℕ). k % n) reached ∙ mod-eq_of_lt below,
      )
  | inr later ↦
      let r : i < s % n = ground (arith, later) in
      let top : s % n < n = mod-lt s (omega (arith, below)) in
      let step = n - s % n + i in
      let reached : s % n + step ≡ n + i = omega (arith, top) in
      (
        s + step,
        omega arith,
        omega (arith, r, top),
        sym (mod-add-mod s n step)
            ∙ ap (λ (k : ℕ). k % n) reached
            ∙ add-mod_left n i
            ∙ mod-eq_of_lt below,
      )
]

-- If Aura keeps as many authorities as it may and lets them take their turns by the number of the
-- slot, then of any number of invulnerables and candidates that the collator selection admits all
-- are authorities, and each of them has its turn in every run of as many slots as there are
-- collators: within twelve minutes, and at the latest after a thirtieth of the blocks after which
-- an idle collator is dropped.
pub collators_turn :
    (bounded : ℕ → ℕ → ℕ) (author : ℕ → ℕ → ℕ) (identity_collator times_two : ℕ → ℕ)
    → ((max n : ℕ) → n ≤ max → bounded max n ≡ n)
    → ((slot n : ℕ) → author slot n ≡ slot % n)
    → ((n : ℕ) → times_two n ≡ n * 2)
    → (invulnerables candidates i slot : ℕ)
    → let c = collator_selection_config identity_collator in
      let a = aura_config times_two in
      let n = bounded a.max_authorities (invulnerables + candidates) in
      invulnerables ≤ c.max_invulnerables
      → candidates ≤ c.max_candidates
      → i < invulnerables + candidates
      → (n ≡ invulnerables + candidates)
        × ((t : ℕ) × (slot ≤ t) × (t < slot + n) × (author t n ≡ i))
        × (n * a.slot_duration ≤ 12 * 60_000)
        × (30 * n ≤ c.kick_threshold)
unfolding aura_config collator_selection_config period minimum_period
collators_turn bounded author identity_collator times_two keeps turns doubles v k i slot few fewer
      below =
    let all = keeps 100_000 (v + k) (omega (arith, few, fewer)) in
    let turn = next_turn (v + k) i slot below in
    rw all (
      refl,
      (turn.0, turn.1, turn.2, turns turn.0 (v + k) ∙ turn.3),
      rw (doubles 3000) (omega (arith, few, fewer)),
      omega (arith, few, fewer),
    )
