-- ===== src/Tests/Runtimes.antt =====
-- The theorems about the runtime APIs and the configurations at concrete inputs.
use ink_node.Base.{
  ℕ, ◌+◌, ◌-◌, ◌*◌, ◌/◌, ◌%◌, ◌≤◌, ◌<◌, ◌≡◌, refl, ◌↔◌, String, Bool, true, ◌&&◌, leb, ◌==◌, Option,
  none, some, [], ◌∷◌, good, bad, str_eq, str_eq-false, if◌then◌else◌, arith, ap, ◌≢◌,
}
use ink_node.Prog.{run, ok}
use ink_node.Service.DevInherents.{DevInherents, create_dev_inherents}
use ink_node.Service.DevInherents.Accepted.{create_dev_inherents-accepted}
use ink_node.Runtime.Apis.{pure, then_good, Bytes, Frame}
use ink_node.Runtime.Apis.Para.{ParaFrame, aura_slot_duration}
use ink_node.Runtime.Apis.Benchmarks.{
  Bench, bench_name, BenchmarkConfig, Benchmarking, or_not_found, dispatch_benchmark,
}
use ink_node.Runtime.Apis.Benchmarks.Found.{IsPassive, dispatch_benchmark-or_not_found}
use ink_node.Runtime.Units.{slot_duration}
use ink_node.Runtime.Schedules.{
  minimum_period, aura_slot, should_end_session, kick_threshold, should_end_session_iff,
}
use ink_node.Tests.World.{numbered_env}

abbrev look_up : Option String → (String → Option Bytes) → Option Bytes
look_up none named = some (123 ∷ [])
look_up (some id) named = named id

-- A storage that counts the executed blocks and extrinsics.
abbrev test_frame : Frame
test_frame = record {
  State = ℕ;
  runtime_api_versions = 1;
  exec_execute_block = λ b s. (tt, s + 1);
  exec_initialize_block = λ h s. (0, s);
  exec_apply_extrinsic = λ x s. (0, s + 1);
  exec_finalize_block = λ s. (s, s);
  exec_validate_transaction = λ o x h s. (x, s);
  exec_offchain_worker = λ h s. (tt, s);
  runtime_metadata = 14;
  into_bytes = λ m. m ∷ [];
  runtime_metadata_at_version = λ v. none;
  runtime_metadata_versions = 14 ∷ 15 ∷ [];
  runtime_view_function = λ i b s. (good b, s);
  create_extrinsics = λ i s. (i ∷ [], s);
  check_extrinsics = λ i b s. (0, s);
  generate_keys = λ ks seed s. ([], s);
  decode_into_raw_public_keys = λ ks b. none;
  system_account_nonce = λ a s. (s, s);
  payment_query_info = λ x n s. (n, s);
  payment_query_fee_details = λ x n s. (n, s);
  payment_weight_to_fee = λ w s. (w, s);
  payment_length_to_fee = λ n s. (n * 50_000, s);
  payment_query_call_info = λ c n s. (n, s);
  payment_query_call_fee_details = λ c n s. (n, s);
  build_genesis_state = λ b s. (good tt, s);
  genesis_preset = look_up;
  revive_api = λ extension r s. (good (r ∷ []), s);
}

abbrev test_benchmarking : Benchmarking
test_benchmarking = record {
  State = ℕ;
  list_benchmark = λ x extra list s. (list, s);
  storage_info = λ s. ([], s);
  whitelisted_storage_keys = λ s. (1 ∷ [], s + 1);
  add_benchmark = λ x config keys batches s.
      if str_eq (bench_name x) config.pallet
      then (good (8 ∷ batches), s + 10)
      else (good batches, s);
}

abbrev timestamp_benchmarks : BenchmarkConfig
timestamp_benchmarks = record { pallet = "pallet_timestamp"; settings = 0 }

test_benchmarking-IsPassive : IsPassive test_benchmarking timestamp_benchmarks
test_benchmarking-IsPassive x keys batches s other =
    ap (λ b. if b then (good (8 ∷ batches), s + 10) else (good batches, s))
      (str_eq-false (bench_name x) "pallet_timestamp" other)

dispatch_benchmark-or_not_found_example :
    (((x : Bench) → bench_name x ≢ "pallet_timestamp")
      → dispatch_benchmark test_benchmarking timestamp_benchmarks 3
        ≡ (bad "Benchmark not found for this pallet.", 4))
    × ((x : Bench)
        → bench_name x ≡ "pallet_timestamp"
        → (y : Bench) × (bench_name y ≡ "pallet_timestamp")
          × (dispatch_benchmark test_benchmarking timestamp_benchmarks 3
              ≡ then_good
                  (test_benchmarking.add_benchmark y timestamp_benchmarks (1 ∷ []) [] 4)
                  (λ batches. pure (or_not_found batches))))
dispatch_benchmark-or_not_found_example =
    dispatch_benchmark-or_not_found test_benchmarking timestamp_benchmarks
      test_benchmarking-IsPassive 3

abbrev test_para_frame : ParaFrame
test_para_frame = record {
  frame = test_frame;
  aura_authorities = λ s. (1 ∷ [], s);
  hook_can_build_upon = λ params hash slot s. (true, s);
  parachain_collation_info = λ h s. (h, s);
}

abbrev twice : ℕ → ℕ
twice p = p * 2

create_dev_inherents-accepted_example :
    let d = (aura_slot_duration test_para_frame 0).0 in
    (r r' : DevInherents) × ((run numbered_env [] (create_dev_inherents 10 1000 d 41)).1 ≡ ok r)
    × ((run numbered_env [] (create_dev_inherents 10 1000 d 42)).1 ≡ ok r')
    × (r.timestamp + minimum_period ≤ r'.timestamp)
    × (r'.timestamp / aura_slot twice ≡ r.timestamp / aura_slot twice + 1)
create_dev_inherents-accepted_example =
    create_dev_inherents-accepted test_para_frame 0 twice numbered_env [] [] 10 1000 41 42
      (record { number = 41; encoded = [] }) (record { number = 42; encoded = [] }) refl refl refl
      refl (omega arith)

abbrev periodic_sessions : ℕ → ℕ → ℕ → Bool
periodic_sessions p o n = leb o n && ((n - o) % p == 0)

periodic_sessions_iff :
    (p o n : ℕ) → (periodic_sessions p o n ≡ true) ↔ ((o ≤ n) × ((n - o) % p ≡ 0))
periodic_sessions_iff p o n = (λ e. (ground arith, ground arith), λ h. ground (arith, h.0, h.1))

should_end_session_iff_example :
    ((n : ℕ) → (should_end_session periodic_sessions n ≡ true) ↔ (n % 3600 ≡ 0))
    × ((n m : ℕ)
        → n < m
        → should_end_session periodic_sessions n ≡ true
        → should_end_session periodic_sessions m ≡ true
        → n * slot_duration + 6 * 3_600_000 ≤ m * slot_duration)
    × ((n : ℕ)
        → should_end_session periodic_sessions n ≡ true
        → should_end_session periodic_sessions (n + kick_threshold) ≡ true)
should_end_session_iff_example = should_end_session_iff periodic_sessions periodic_sessions_iff
