-- ===== src/Runtime/Apis/Benchmarks/Found.antt =====
-- parachain-runtime/src/lib.rs: which benchmark a request finds.
use ink_node.Base.{
  String, ◌≡◌, ◌≢◌, refl, sym, ◌∙◌, ap, subst, Bool, true, false, List, [], ◌∷◌, Fallible, good,
  bad, str_eq, str_eq-false, eq_iff, differ, Bool-cases, inl, inr, if◌then◌else◌,
}
use ink_node.Runtime.Apis.{Opaque, Exec, pure, then_good}
use ink_node.Runtime.Apis.Benchmarks.{
  Bench, benches, bench_name, BenchmarkConfig, Benchmarking, add_benchmarks, or_not_found,
  dispatch_benchmark,
}

-- Whether a name belongs to none of the benchmarks, and whether it belongs to exactly one.
abbrev absent : String → List Bench → Bool
absent n [] = true
absent n (x ∷ xs) = if str_eq (bench_name x) n then false else absent n xs

abbrev once : String → List Bench → Bool
once n [] = false
once n (x ∷ xs) = if str_eq (bench_name x) n then absent n xs else once n xs

benches-once : (x : Bench) → once (bench_name x) benches ≡ true
benches-once Bench.frame_system = refl
benches-once Bench.pallet_balances = refl
benches-once Bench.pallet_session = refl
benches-once Bench.pallet_timestamp = refl
benches-once Bench.pallet_message_queue = refl
benches-once Bench.pallet_sudo = refl
benches-once Bench.pallet_collator_selection = refl
benches-once Bench.parachain_system = refl
benches-once Bench.xcmp_queue = refl

unknown-absent :
    (n : String) (xs : List Bench) → ((x : Bench) → bench_name x ≢ n) → absent n xs ≡ true
unknown-absent n [] unknown = refl
unknown-absent n (x ∷ xs) unknown =
    rw (str_eq-false (bench_name x) n (unknown x), absent) (unknown-absent n xs unknown)

only_first :
    {S A : Type 0} (r : Fallible A × S) (k : A → Exec S (Fallible A))
    → ((a : A) (s : S) → k a s ≡ (good a, s))
    → then_good r k ≡ r
only_first (good a, s) k keeps = keeps a s
only_first (bad e, s) k keeps = refl

module _ (b : Benchmarking) (config : BenchmarkConfig) where
  abbrev pub Outcome : Type 0
  Outcome = Fallible (List Opaque) × b.State

  -- A benchmark that the configuration does not name adds nothing.
  abbrev pub IsPassive : Type 0
  IsPassive =
      (x : Bench) (keys batches : List Opaque) (s : b.State)
      → bench_name x ≢ config.pallet
      → b.add_benchmark x config keys batches s ≡ (good batches, s)

  skip :
      (keys : List Opaque) (x : Bench) (xs : List Bench) (batches : List Opaque) (s : b.State)
      → IsPassive
      → str_eq (bench_name x) config.pallet ≡ false
      → add_benchmarks b config keys (x ∷ xs) batches s ≡ add_benchmarks b config keys xs batches s
  unfolding add_benchmarks
  skip keys x xs batches s passive other =
      ap (λ (r : Outcome). then_good r (λ more. add_benchmarks b config keys xs more))
        (passive x keys batches s (differ (bench_name x) config.pallet other))

  add_benchmarks-absent :
      (keys : List Opaque) (xs : List Bench) (batches : List Opaque) (s : b.State)
      → IsPassive
      → absent config.pallet xs ≡ true
      → add_benchmarks b config keys xs batches s ≡ (good batches, s)
  unfolding add_benchmarks
  add_benchmarks-absent keys [] batches s passive e = refl
  add_benchmarks-absent keys (x ∷ xs) batches s passive e =
      elim (Bool-cases (str_eq (bench_name x) config.pallet)) [
        | inl same ↦
            let absurd = ap (λ c. if c then false else absent config.pallet xs) (sym same) ∙ e in cc
        | inr other ↦
            skip keys x xs batches s passive other
            ∙ add_benchmarks-absent keys xs batches s passive
                (ap (λ c. if c then false else absent config.pallet xs) (sym other) ∙ e)
      ]

  last :
      (keys : List Opaque) (x : Bench) (xs : List Bench) (batches : List Opaque) (s : b.State)
      → IsPassive
      → absent config.pallet xs ≡ true
      → add_benchmarks b config keys (x ∷ xs) batches s ≡ b.add_benchmark x config keys batches s
  unfolding add_benchmarks
  last keys x xs batches s passive gone =
      only_first (b.add_benchmark x config keys batches s)
        (λ more t. add_benchmarks b config keys xs more t)
        (λ more t. add_benchmarks-absent keys xs more t passive gone)

  -- The one benchmark of a name is run, and no other.
  abbrev Runs : List Opaque → List Bench → List Opaque → b.State → Type 0
  Runs keys xs batches s =
      (x : Bench) × (bench_name x ≡ config.pallet)
      × (add_benchmarks b config keys xs batches s ≡ b.add_benchmark x config keys batches s)

  add_benchmarks-once :
      (keys : List Opaque) (xs : List Bench) (batches : List Opaque) (s : b.State)
      → IsPassive
      → once config.pallet xs ≡ true
      → Runs keys xs batches s
  unfolding add_benchmarks
  add_benchmarks-once keys [] batches s passive e = let absurd = e in cc
  add_benchmarks-once keys (x ∷ xs) batches s passive e =
      elim (Bool-cases (str_eq (bench_name x) config.pallet)) [
        | inl same ↦
            let gone =
              ap (λ c. if c then absent config.pallet xs else once config.pallet xs) (sym same)
              ∙ e in
            (x, (eq_iff (bench_name x) config.pallet).0 same, last keys x xs batches s passive gone)
        | inr other ↦
            let later = add_benchmarks-once keys xs batches s passive (
              ap (λ c. if c then absent config.pallet xs else once config.pallet xs) (sym other)
              ∙ e) in
            (later.0, later.1, skip keys x xs batches s passive other ∙ later.2)
      ]

  -- If a benchmark adds nothing unless it is asked for, a request for a pallet that is not among the
  -- nine fails with the text "Benchmark not found for this pallet.", and one for a pallet among them
  -- gets what its benchmark alone adds, its error, or that text if it adds nothing. Nothing
  -- else changes but what reading the whitelisted keys changes.
  pub dispatch_benchmark-or_not_found :
      IsPassive
      → (s : b.State)
      → let keys = b.whitelisted_storage_keys s in
        (((x : Bench) → bench_name x ≢ config.pallet)
          → dispatch_benchmark b config s ≡ (bad "Benchmark not found for this pallet.", keys.1))
        × ((x : Bench)
            → bench_name x ≡ config.pallet
            → (y : Bench) × (bench_name y ≡ config.pallet)
              × (dispatch_benchmark b config s
                  ≡ then_good
                      (b.add_benchmark y config keys.0 [] keys.1)
                      (λ batches. pure (or_not_found batches))))
  unfolding dispatch_benchmark
  dispatch_benchmark-or_not_found passive s =
      let keys = b.whitelisted_storage_keys s in
      let finish : Outcome → Outcome = λ r. then_good r (λ batches. pure (or_not_found batches)) in
      (
        λ unknown. ap finish (
            add_benchmarks-absent keys.0 benches [] keys.1 passive
              (unknown-absent config.pallet benches unknown)),
        λ x named.
            let found =
              add_benchmarks-once keys.0 benches [] keys.1 passive
                (subst (λ n. once n benches ≡ true) named (benches-once x)) in
            (found.0, found.1, ap finish found.2),
      )
