-- ===== src/Runtime/Messages/Weighing.antt =====
-- parachain-runtime/src/xcm_config.rs and parachain-runtime/src/lib.rs: what messages weigh, and how
-- many instructions the message queue has room for.
use ink_node.Base.{
  ℕ, ◌+◌, ◌*◌, ◌≤◌, ◌<◌, ◌≡◌, refl, sym, subst, ◌∙◌, ◌↔◌, leb, Bool, false, Bool-cases, inl, inr,
  Option, none, some, if◌then◌else◌, arith,
}
use mathlib.Core.Option.{some-injective}
use ink_node.Runtime.Weights.{Weight, from_parts, RefTime, para_maximum_block_weight}
use ink_node.Runtime.Schedules.{message_queue_service_weight, reserves_fit}
use ink_node.Runtime.Origins.{Location}
use ink_node.Runtime.Messages.Queues.{QueueBuilder}
use ink_node.Runtime.Messages.Transport.{message_queue_config, parachain_system_config}
use ink_node.Runtime.Messages.{XcmBuilder}
use ink_node.Runtime.Messages.Assets.{AssetBuilder}
use ink_node.Runtime.Messages.Senders.{SenderBuilder}
use ink_node.Runtime.Messages.Router.{RouterBuilder}
use ink_node.Runtime.Messages.Executor.{ConfigBuilder, weigher, unit_weight_cost, max_instructions}

-- What xcm_builder documents of its weigher, for a message whose instructions hold no calls: each
-- instruction weighs one unit, and there is no weight beyond the greatest number of them.
pub record Weighs (x : XcmBuilder) (b : ConfigBuilder x) : Type 0 where
  pub instructions : x.Message → ℕ
  pub holds_calls : x.Message → Bool
  pub bounds_lem :
      (u : Weight) (n : ℕ) (m : x.Message)
      → holds_calls m ≡ false
      → b.fixed_weight_bounds u n m ≡ (
          if leb (instructions m) n
          then some (from_parts (instructions m * u.ref_time) (instructions m * u.proof_size))
          else none)

-- A percentage of a weight, rounded to a nearest number.
abbrev pub IsNearest : (ℕ → Weight → Weight) → Type 0
IsNearest percent_of =
    (r : ℕ) (w : Weight)
    → ((percent_of r w).ref_time * 100 ≤ r * w.ref_time + 50)
      × (r * w.ref_time ≤ (percent_of r w).ref_time * 100 + 50)
      × ((percent_of r w).proof_size * 100 ≤ r * w.proof_size + 50)
      × (r * w.proof_size ≤ (percent_of r w).proof_size * 100 + 50)

-- The weight of so many instructions.
abbrev weight_of : ℕ → Option Weight
weight_of n = if leb n 100 then some (from_parts (n * 1_000_000_000) (n * 65_536)) else none

weight_of_iff : (n : ℕ) → (weight_of n ≡ none) ↔ (100 < n)
weight_of_iff n = elim (Bool-cases (leb n 100)) [
  | inl few ↦ rw few (λ e. cc, λ many. ground (arith, few, many))
  | inr many ↦ rw many (λ e. ground (arith, many), λ e. refl)
]

-- Within a queue's share of a block.
weight_of_fits :
    (n mib5 time proof : ℕ) (w : Weight)
    → weight_of n ≡ some w
    → 70_000_000_000_000 ≤ time * 100 + 50
    → proof * 100 ≤ 35 * (mib5 * 5_242_880) + 50
    → 35 * (mib5 * 5_242_880) ≤ proof * 100 + 50
    → (w.ref_time ≤ time) × ((w.proof_size ≤ proof) ↔ (n ≤ 28 * mib5))
weight_of_fits n mib5 time proof w known enough most least = elim (Bool-cases (leb n 100)) [
  | inl few ↦
      let weight : from_parts (n * 1_000_000_000) (n * 65_536) ≡ w =
        some-injective _ _ (sym (rw few refl) ∙ known) in
      let bound : n ≤ 100 = ground (arith, few) in
      subst (λ (v : Weight). (v.ref_time ≤ time) × ((v.proof_size ≤ proof) ↔ (n ≤ 28 * mib5)))
        weight (omega arith, (λ h. omega (arith, h), λ h. omega (arith, h)))
  | inr many ↦
      let none_left : weight_of n ≡ none = rw many refl in let absurd = sym none_left ∙ known in cc
]

module _ (x : XcmBuilder) (a : AssetBuilder) (r : RouterBuilder) (s : SenderBuilder)
    (b : ConfigBuilder x) (k : Weighs x b) where
  weighed :
      (m : x.Message) → k.holds_calls m ≡ false → weigher x a r s b m ≡ weight_of (k.instructions m)
  weighed m plain = k.bounds_lem unit_weight_cost max_instructions m plain

  -- If the weigher and the percentages are what the SDK documents of them, with the SDK's units of
  -- time and proofs of validity of a multiple of 5 MiB, a message without calls has a weight exactly
  -- if it has at most 100 instructions; its time then always fits what the message queue may use of
  -- a block, and its proof fits exactly if it has at most 28 instructions for each 5 MiB. What the
  -- queue may use and what is set apart for messages of the relay chain and of siblings fit into a
  -- block together, in time and in proof size.
  pub weigher_fits :
      (q : QueueBuilder) (execute : Location → q.Message → q.Outcome)
      (strictly_increases : ℕ → ℕ → Bool) (default_core_selector : ℕ → ℕ)
      (percent_of : ℕ → Weight → Weight) (t : RefTime) (mib5 : ℕ) (m : x.Message)
      → IsNearest percent_of
      → t.per_second ≡ 1_000_000_000_000
      → 1 ≤ mib5
      → k.holds_calls m ≡ false
      → let max = para_maximum_block_weight t (mib5 * 5_242_880) in
        let queue = (message_queue_config q execute percent_of max).service_weight in
        let system = parachain_system_config q strictly_increases default_core_selector max in
        let dmp = system.reserved_dmp_weight in
        let xcmp = system.reserved_xcmp_weight in
        ((weigher x a r s b m ≡ none) ↔ (100 < k.instructions m))
        × ((w : Weight)
            → weigher x a r s b m ≡ some w
            → (w.ref_time ≤ queue.ref_time)
              × ((w.proof_size ≤ queue.proof_size) ↔ (k.instructions m ≤ 28 * mib5)))
        × (xcmp.ref_time + dmp.ref_time + queue.ref_time ≤ max.ref_time)
        × (xcmp.proof_size + dmp.proof_size + queue.proof_size ≤ max.proof_size)
  unfolding message_queue_config parachain_system_config message_queue_service_weight
      para_maximum_block_weight
  weigher_fits q execute strictly_increases default_core_selector percent_of t mib5 m nearest second
        some_proof plain =
      let max = from_parts 2_000_000_000_000 (mib5 * 5_242_880) in
      let fit =
        reserves_fit percent_of max (λ p w. ((nearest p w).0, (nearest p w).2)) (omega arith)
          (omega (arith, some_proof)) in
      rw (weighed m plain, second)
        (
          weight_of_iff (k.instructions m),
          λ w known.
              weight_of_fits (k.instructions m) mib5 (percent_of 35 max).ref_time
                (percent_of 35 max).proof_size w known (nearest 35 max).1 (nearest 35 max).2
                (nearest 35 max).3,
          fit.0,
          fit.1,
        )
