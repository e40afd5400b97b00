-- ===== src/Runtime/Schedules.antt =====
-- parachain-runtime/src/lib.rs: the constants of the pallets' configurations that say how often
-- blocks and sessions come and how much of a block the messages may take.
use ink_node.Base.{ℕ, ◌+◌, ◌-◌, ◌*◌, ◌/◌, ◌%◌, ◌^◌, ◌≤◌, ◌<◌, ◌≡◌, ◌↔◌, Bool, true, arith}
use ink_node.Runtime.Units.{slot_duration, hours}
use ink_node.Runtime.Weights.{Weight, from_parts}

-- `MinimumPeriod` of the timestamp pallet.
unfoldable pub minimum_period : ℕ
minimum_period = slot_duration / 2

-- `SlotDuration` of the Aura pallet, for `MinimumPeriodTimesTwo`.
abbrev pub aura_slot : (ℕ → ℕ) → ℕ
aura_slot minimum_period_times_two = minimum_period_times_two minimum_period

-- `Period` and `Offset` of the sessions, `KickThreshold` of the collators, in blocks.
unfoldable pub period : ℕ
period = (6 * hours) % 2 ^ 32

abbrev pub offset : ℕ
offset = 0

abbrev pub kick_threshold : ℕ
kick_threshold = period

-- `MaxInvulnerables` of the collator selection.
abbrev pub max_invulnerables : ℕ
max_invulnerables = 20

-- `PeriodicSessions<Period, Offset>`, for the SDK's test of a block's number.
abbrev pub should_end_session : (ℕ → ℕ → ℕ → Bool) → ℕ → Bool
should_end_session periodic now = periodic period offset now

-- `ReservedXcmpWeight`, `ReservedDmpWeight` and `MessageQueueServiceWeight`, for the block's weight.
abbrev pub saturating_div : Weight → ℕ → Weight
saturating_div w n = from_parts (w.ref_time / n) (w.proof_size / n)

unfoldable pub reserved_xcmp_weight : Weight → Weight
reserved_xcmp_weight max = saturating_div max 4

unfoldable pub reserved_dmp_weight : Weight → Weight
reserved_dmp_weight max = saturating_div max 4

unfoldable pub message_queue_service_weight : (ℕ → Weight → Weight) → Weight → Weight
message_queue_service_weight percent_of max_block = percent_of 35 max_block

-- If the SDK ends a session where a whole number of periods has passed since the offset, sessions end
-- exactly at the blocks whose number is a multiple of 3600, any two ends lie at least six hours
-- of slots apart, and the threshold for idle collators is a whole number of sessions.
pub should_end_session_iff :
    (periodic : ℕ → ℕ → ℕ → Bool)
    → ((p o n : ℕ) → (periodic p o n ≡ true) ↔ ((o ≤ n) × ((n - o) % p ≡ 0)))
    → ((n : ℕ) → (should_end_session periodic n ≡ true) ↔ (n % 3600 ≡ 0))
      × ((n m : ℕ)
          → n < m
          → should_end_session periodic n ≡ true
          → should_end_session periodic m ≡ true
          → n * slot_duration + 6 * 3_600_000 ≤ m * slot_duration)
      × ((n : ℕ)
          → should_end_session periodic n ≡ true
          → should_end_session periodic (n + kick_threshold) ≡ true)
unfolding period
should_end_session_iff periodic law =
    let ends : (n : ℕ) → (periodic 3600 0 n ≡ true) ↔ (n % 3600 ≡ 0) = λ n. (
      λ e. omega (arith, ((law 3600 0 n).0 e).1),
      λ z. (law 3600 0 n).1 (omega arith, omega arith),
    ) in
    (
      ends,
      λ n m below e e'. omega (arith, (ends n).0 e, (ends m).0 e'),
      λ n e. (ends (n + 3600)).1 (omega (arith, (ends n).0 e)),
    )

-- If a percentage of a weight is rounded to the nearest number, what is set apart for messages of
-- siblings and of the relay chain and what the message queue may use fit into a block together, in
-- time and in proof size, whenever a block holds at least ten of each.
pub reserves_fit :
    (percent_of : ℕ → Weight → Weight) (max : Weight)
    → ((r : ℕ) (w : Weight)
        → ((percent_of r w).ref_time * 100 ≤ r * w.ref_time + 50)
          × ((percent_of r w).proof_size * 100 ≤ r * w.proof_size + 50))
    → 10 ≤ max.ref_time
    → 10 ≤ max.proof_size
    → let xcmp = reserved_xcmp_weight max in
      let dmp = reserved_dmp_weight max in
      let queue = message_queue_service_weight percent_of max in
      (xcmp.ref_time + dmp.ref_time + queue.ref_time ≤ max.ref_time)
      × (xcmp.proof_size + dmp.proof_size + queue.proof_size ≤ max.proof_size)
unfolding reserved_xcmp_weight reserved_dmp_weight message_queue_service_weight
reserves_fit percent_of max nearest time proof =
    (omega (arith, (nearest 35 max).0), omega (arith, (nearest 35 max).1))
