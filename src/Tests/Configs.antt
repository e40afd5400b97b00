-- ===== src/Tests/Configs.antt =====
-- The theorems about the pallets' configurations at concrete inputs.
use ink_node.Base.{ℕ, ◌+◌, ◌*◌, ◌%◌, ◌≤◌, ◌<◌, ◌≡◌, refl, leb, if◌then◌else◌, arith}
use ink_node.Runtime.Configs.Consensus.{aura_config, collator_selection_config, collators_turn}

abbrev identity : ℕ → ℕ
identity n = n

abbrev twice : ℕ → ℕ
twice n = n * 2

abbrev remainder : ℕ → ℕ → ℕ
remainder slot n = slot % n

abbrev truncated : ℕ → ℕ → ℕ
truncated max n = if leb n max then n else max

collators_turn_example :
    let c = collator_selection_config identity in
    let a = aura_config twice in
    let n = truncated a.max_authorities 5 in
    (n ≡ 5)
    × ((t : ℕ) × (1000 ≤ t) × (t < 1000 + n) × (t % n ≡ 3))
    × (n * a.slot_duration ≤ 720_000)
    × (30 * n ≤ c.kick_threshold)
unfolding collator_selection_config
collators_turn_example =
    collators_turn truncated remainder identity twice (λ max n small. ground (arith, small))
      (λ slot n. refl) (λ n. refl) 2 3 3 1000 (omega arith) (omega arith) (omega arith)
