-- ===== src/Runtime/Apis/Benchmarks.antt =====
-- parachain-runtime/src/lib.rs: the benchmarks and the API that runs them, with the feature
-- `runtime-benchmarks`.
pub mod Found
use ink_node.Base.{String, Bool, List, [], ◌∷◌, Fallible, good, bad}
use ink_node.Runtime.Apis.{Opaque, Exec, pure, then_good}

-- The pallets in `define_benchmarks!`.
pub data Bench : Type 0 where
  frame_system pallet_balances pallet_session pallet_timestamp pallet_message_queue : Bench
  pallet_sudo pallet_collator_selection parachain_system xcmp_queue : Bench

abbrev pub benches : List Bench
benches =
    Bench.frame_system ∷ Bench.pallet_balances ∷ Bench.pallet_session ∷ Bench.pallet_timestamp
    ∷ Bench.pallet_message_queue ∷ Bench.pallet_sudo ∷ Bench.pallet_collator_selection
    ∷ Bench.parachain_system ∷ Bench.xcmp_queue ∷ []

-- The names that the macro makes of them.
abbrev pub bench_name : Bench → String
bench_name Bench.frame_system = "frame_system"
bench_name Bench.pallet_balances = "pallet_balances"
bench_name Bench.pallet_session = "pallet_session"
bench_name Bench.pallet_timestamp = "pallet_timestamp"
bench_name Bench.pallet_message_queue = "pallet_message_queue"
bench_name Bench.pallet_sudo = "pallet_sudo"
bench_name Bench.pallet_collator_selection = "pallet_collator_selection"
bench_name Bench.parachain_system = "cumulus_pallet_parachain_system"
bench_name Bench.xcmp_queue = "cumulus_pallet_xcmp_queue"

-- `settings` are the other fields.
pub record BenchmarkConfig : Type 0 where
  pub pallet : String
  pub settings : Opaque

-- The macros of frame_benchmarking, and the storage that they read. `add_benchmark` puts its
-- batches behind those that it is given.
pub record Benchmarking : Type 1 where
  pub State : Type 0
  pub list_benchmark : Bench → Bool → List Opaque → Exec State (List Opaque)
  pub storage_info : Exec State (List Opaque)
  pub whitelisted_storage_keys : Exec State (List Opaque)
  pub add_benchmark :
      Bench → BenchmarkConfig → List Opaque → List Opaque → Exec State (Fallible (List Opaque))

-- `list_benchmarks!`.
unfoldable pub list_benchmarks :
    (b : Benchmarking) → Bool → List Bench → List Opaque → Exec b.State (List Opaque)
list_benchmarks b extra [] list s = (list, s)
list_benchmarks b extra (x ∷ xs) list s =
    let listed = b.list_benchmark x extra list s in list_benchmarks b extra xs listed.0 listed.1

abbrev pub benchmark_metadata : (b : Benchmarking) → Bool → Exec b.State (List Opaque × List Opaque)
benchmark_metadata b extra s =
    let listed = list_benchmarks b extra benches [] s in
    let info = b.storage_info listed.1 in ((listed.0, info.0), info.1)

-- `add_benchmarks!`: the first error ends it.
unfoldable pub add_benchmarks :
    (b : Benchmarking)
    → BenchmarkConfig
    → List Opaque
    → List Bench
    → List Opaque
    → Exec b.State (Fallible (List Opaque))
add_benchmarks b config keys [] batches s = (good batches, s)
add_benchmarks b config keys (x ∷ xs) batches s =
    then_good (b.add_benchmark x config keys batches s)
      (λ more. add_benchmarks b config keys xs more)

abbrev pub or_not_found : List Opaque → Fallible (List Opaque)
or_not_found [] = bad "Benchmark not found for this pallet."
or_not_found (x ∷ xs) = good (x ∷ xs)

unfoldable pub dispatch_benchmark :
    (b : Benchmarking) → BenchmarkConfig → Exec b.State (Fallible (List Opaque))
dispatch_benchmark b config s =
    let whitelist = b.whitelisted_storage_keys s in
    then_good (add_benchmarks b config whitelist.0 benches [] whitelist.1)
      (λ batches. pure (or_not_found batches))
