-- ===== src/Runtime/Weights/Sane.antt =====
-- The tests of the files of parachain-runtime/src/weights: what they assert of the weights.
use ink_node.Base.{ℕ, String, Bool, true, false, leb, Option, none, some, List, [], ◌∷◌}
use ink_node.Runtime.Words.{mul_u64}
use ink_node.Runtime.Weights.{
  RefTime, Weight, RuntimeDbWeight, block_execution_weight, extrinsic_base_weight, rocks_db_weight,
  parity_db_weight,
}

abbrev pub Assertion : Type 0
Assertion = Bool × String

-- The text of the first assertion that fails, and with it the test.
abbrev pub asserted : List Assertion → Option String
asserted [] = none
asserted ((true, text) ∷ others) = asserted others
asserted ((false, text) ∷ others) = some text

unfoldable pub block_execution_sane : RefTime → Option String
block_execution_sane t =
    let w = block_execution_weight t in
    asserted (
      (leb (mul_u64 100 t.per_micros) w.ref_time, "Weight should be at least 100 µs.")
      ∷ (leb w.ref_time (mul_u64 50 t.per_millis), "Weight should be at most 50 ms.")
      ∷ [])

unfoldable pub extrinsic_base_sane : RefTime → Option String
extrinsic_base_sane t =
    let w = extrinsic_base_weight t in
    asserted (
      (leb (mul_u64 10 t.per_micros) w.ref_time, "Weight should be at least 10 µs.")
      ∷ (leb w.ref_time t.per_millis, "Weight should be at most 1 ms.")
      ∷ [])

-- `RuntimeDbWeight::reads` and `writes`, which the two tests of a database's weights call.
module _ (reads writes : RuntimeDbWeight → ℕ → Weight) where
  unfoldable pub rocks_db_sane : RefTime → Option String
  rocks_db_sane t =
      let w = rocks_db_weight t in
      asserted (
        (leb t.per_micros (reads w 1).ref_time, "Read weight should be at least 1 µs.")
        ∷ (leb t.per_micros (writes w 1).ref_time, "Write weight should be at least 1 µs.")
        ∷ (leb (reads w 1).ref_time t.per_millis, "Read weight should be at most 1 ms.")
        ∷ (leb (writes w 1).ref_time t.per_millis, "Write weight should be at most 1 ms.")
        ∷ [])

  unfoldable pub parity_db_sane : RefTime → Option String
  parity_db_sane t =
      let w = parity_db_weight t in
      asserted (
        (leb t.per_micros (reads w 1).ref_time, "Read weight should be at least 1 µs.")
        ∷ (leb t.per_micros (writes w 1).ref_time, "Write weight should be at least 1 µs.")
        ∷ (leb (reads w 1).ref_time t.per_millis, "Read weight should be at most 1 ms.")
        ∷ (leb (writes w 1).ref_time t.per_millis, "Write weight should be at most 1 ms.")
        ∷ [])
