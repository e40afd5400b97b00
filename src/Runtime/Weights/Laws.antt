-- ===== src/Runtime/Weights/Laws.antt =====
-- The limits of the dispatch classes in both runtimes.
use ink_node.Base.{
  map_some, ◌%◌, ap, ◌∙◌, ℕ, ◌+◌, ◌*◌, ◌≤◌, refl, ◌≡◌, Bool, true, false, ◌||◌, some, List, [], ◌∷◌,
  arith, if◌then◌else◌,
}
use ink_node.Runtime.Weights.{
  solo_block_constants, para_block_constants, solo_maximum_block_weight, para_maximum_block_weight,
  RefTime, Weight, DispatchClass, normal, operational, mandatory, ClassWeights, BlockConstants,
  WeightsBuilder, extrinsic_base_weight, runtime_block_weights,
}

abbrev pub same_class : DispatchClass → DispatchClass → Bool
same_class normal normal = true
same_class operational operational = true
same_class mandatory mandatory = true
same_class _ _ = false

abbrev pub contains_class : List DispatchClass → DispatchClass → Bool
contains_class [] c = false
contains_class (d ∷ ds) c = same_class d c || contains_class ds c

-- The SDK's builder changes the classes that it is told to, and no other setting of a class; a share
-- of a weight is no more than the weight and exact where it can be, and `-` undoes `+` there.
pub record IsLawful (w : WeightsBuilder) : Type 0 where
  pub class_of-base_block :
      (b : w.Builder) (x : Weight) (c : DispatchClass)
      → w.class_of (w.base_block x b) c ≡ w.class_of b c
  pub class_of-for_class :
      (b : w.Builder) (cs : List DispatchClass) (f : ClassWeights → ClassWeights)
      (c : DispatchClass)
      → w.class_of (w.for_class cs f b) c
        ≡ (if contains_class cs c then f (w.class_of b c) else w.class_of b c)
  pub class_of-avg :
      (b : w.Builder) (r : ℕ) (c : DispatchClass)
      → w.class_of (w.avg_block_initialization r b) c ≡ w.class_of b c
  pub percent_of-le : (r : ℕ) (x : Weight) → r ≤ 100 → (w.percent_of r x).ref_time ≤ x.ref_time
  pub percent_of_ref_time :
      (r : ℕ) (x : Weight)
      → r * x.ref_time % 100 ≡ 0
      → (w.percent_of r x).ref_time * 100 ≡ r * x.ref_time
  pub sub_ref_time :
      (x y : Weight) → y.ref_time ≤ x.ref_time → (w.sub x y).ref_time + y.ref_time ≡ x.ref_time

-- The limits of a class: what a block may hold of it and what is set apart for it.
class_limits :
    (w : WeightsBuilder)
    → IsLawful w
    → (c : BlockConstants)
    → let b = runtime_block_weights w c in
      let share = w.percent_of 75 c.maximum_block_weight in
      ((d : DispatchClass) → (w.class_of b d).base_extrinsic ≡ c.extrinsic_base)
      × ((w.class_of b normal).max_total ≡ some share)
      × ((w.class_of b operational).max_total ≡ some c.maximum_block_weight)
      × ((w.class_of b operational).reserved ≡ some (w.sub c.maximum_block_weight share))
      × ((w.class_of b mandatory).max_total ≡ (w.class_of w.builder mandatory).max_total)
      × ((w.sub c.maximum_block_weight share).ref_time + share.ref_time
          ≡ c.maximum_block_weight.ref_time)
unfolding runtime_block_weights
class_limits w L c = (
  elim [
    | normal ↦ simp (L.class_of-avg, L.class_of-for_class)
    | operational ↦ simp (L.class_of-avg, L.class_of-for_class)
    | mandatory ↦ simp (L.class_of-avg, L.class_of-for_class)
  ],
  simp (L.class_of-avg, L.class_of-for_class),
  simp (L.class_of-avg, L.class_of-for_class),
  simp (L.class_of-avg, L.class_of-for_class),
  simp (L.class_of-avg, L.class_of-for_class, L.class_of-base_block),
  L.sub_ref_time _ _ (L.percent_of-le 75 c.maximum_block_weight (omega arith)),
)

abbrev pub time_of : Weight → ℕ
time_of x = x.ref_time

-- A block of two seconds, three quarters of it for normal extrinsics and one set apart for
-- operational ones, with this weight for each extrinsic.
abbrev pub IsTwoSeconds : (w : WeightsBuilder) → w.Builder → Weight → Type 0
IsTwoSeconds w b base =
    ((d : DispatchClass) → (w.class_of b d).base_extrinsic ≡ base)
    × (map_some time_of (w.class_of b normal).max_total ≡ some 1_500_000_000_000)
    × (map_some time_of (w.class_of b operational).max_total ≡ some 2_000_000_000_000)
    × (map_some time_of (w.class_of b operational).reserved ≡ some 500_000_000_000)
    × ((w.class_of b mandatory).max_total ≡ (w.class_of w.builder mandatory).max_total)

two_seconds :
    (w : WeightsBuilder)
    → IsLawful w
    → (c : BlockConstants) → c.maximum_block_weight.ref_time ≡ 2_000_000_000_000
    → IsTwoSeconds w (runtime_block_weights w c) c.extrinsic_base
two_seconds w L c two =
    let l = class_limits w L c in
    let max = c.maximum_block_weight in
    let share = w.percent_of 75 max in
    let exact = L.percent_of_ref_time 75 max (omega (arith, two)) in
    let most : share.ref_time ≡ 1_500_000_000_000 = omega (arith, exact, two) in
    let rest : (w.sub max share).ref_time ≡ 500_000_000_000 = omega (arith, l.5, most, two) in
    (
      l.0,
      ap (map_some time_of) l.1 ∙ ap some most,
      ap (map_some time_of) l.2 ∙ ap some two,
      ap (map_some time_of) l.3 ∙ ap some rest,
      l.4,
    )

-- If the SDK's builder changes just the classes and settings that it is told to, percentages are exact
-- where they can be, and a second is 10^12 units of time, a block of either runtime has two
-- seconds: a second and a half of them may go to normal extrinsics, all of them to operational
-- ones, for which half a second is set apart, and nothing is said of mandatory ones; each extrinsic
-- weighs at least the runtime's own base weight, whatever its class.
pub runtime_block_weights-IsTwoSeconds :
    (w : WeightsBuilder)
    → IsLawful w
    → (t : RefTime) (max_pov_size : ℕ) (block_execution extrinsic_base : Weight)
    → t.per_second ≡ 1_000_000_000_000
    → IsTwoSeconds w
        (runtime_block_weights w (solo_block_constants t block_execution extrinsic_base))
        extrinsic_base
      × IsTwoSeconds w
          (runtime_block_weights w (para_block_constants t max_pov_size))
          (extrinsic_base_weight t)
unfolding solo_block_constants para_block_constants solo_maximum_block_weight
    para_maximum_block_weight
runtime_block_weights-IsTwoSeconds w L t max_pov_size block_execution extrinsic_base second = (
  two_seconds w L (solo_block_constants t block_execution extrinsic_base) (rw second refl),
  two_seconds w L (para_block_constants t max_pov_size) (rw second refl),
)
