-- ===== src/Runtime/Weights.antt =====
-- The weights of parachain-runtime/src/weights, and the builder calls that make
-- `RuntimeBlockWeights` in both runtimes.
pub mod Sane
pub mod Laws
use ink_node.Base.{ℕ, ◌*◌, Option, some, List, [], ◌∷◌}
use ink_node.Runtime.Words.{saturating_mul, mul_u64}

-- `frame_support::weights::constants`.
pub record RefTime : Type 0 where
  pub per_second : ℕ
  pub per_millis : ℕ
  pub per_micros : ℕ
  pub per_nanos : ℕ

pub record Weight : Type 0 where
  pub ref_time : ℕ
  pub proof_size : ℕ

-- `Weight::from_parts`.
abbrev pub from_parts : ℕ → ℕ → Weight
from_parts r p = record { ref_time = r; proof_size = p }

unfoldable pub block_execution_weight : RefTime → Weight
block_execution_weight t = from_parts (saturating_mul t.per_nanos 5_000_000) 0

unfoldable pub extrinsic_base_weight : RefTime → Weight
extrinsic_base_weight t = from_parts (saturating_mul t.per_nanos 125_000) 0

pub record RuntimeDbWeight : Type 0 where
  pub read : ℕ
  pub write : ℕ

unfoldable pub rocks_db_weight : RefTime → RuntimeDbWeight
rocks_db_weight t = record {
  read = mul_u64 25_000 t.per_nanos;
  write = mul_u64 100_000 t.per_nanos;
}

unfoldable pub parity_db_weight : RefTime → RuntimeDbWeight
parity_db_weight t = record { read = mul_u64 8_000 t.per_nanos; write = mul_u64 50_000 t.per_nanos }

pub data DispatchClass : Type 0 where
  normal operational mandatory : DispatchClass

-- `WeightsPerClass`.
pub record ClassWeights : Type 0 where
  pub base_extrinsic : Weight
  pub max_extrinsic : Option Weight
  pub max_total : Option Weight
  pub reserved : Option Weight

-- What the two runtimes put into the same builder calls: `MAXIMUM_BLOCK_WEIGHT`,
-- `AVERAGE_ON_INITIALIZE_RATIO` in percent, and the two base weights.
pub record BlockConstants : Type 0 where
  pub maximum_block_weight : Weight
  pub average_on_initialize : ℕ
  pub block_execution : Weight
  pub extrinsic_base : Weight

-- `frame_system::limits::BlockWeightsBuilder`, `Perbill` times a weight, and `-` on weights.
pub record WeightsBuilder : Type 1 where
  pub Builder : Type 0
  pub builder : Builder
  pub base_block : Weight → Builder → Builder
  pub for_class : List DispatchClass → (ClassWeights → ClassWeights) → Builder → Builder
  pub avg_block_initialization : ℕ → Builder → Builder
  pub class_of : Builder → DispatchClass → ClassWeights
  pub percent_of : ℕ → Weight → Weight
  pub sub : Weight → Weight → Weight

abbrev pub all_classes : List DispatchClass
all_classes = normal ∷ operational ∷ mandatory ∷ []

-- `NORMAL_DISPATCH_RATIO`, in percent.
abbrev pub normal_dispatch_ratio : ℕ
normal_dispatch_ratio = 75

-- `MAXIMUM_BLOCK_WEIGHT` of runtime/src/lib.rs.
unfoldable pub solo_maximum_block_weight : RefTime → Weight
solo_maximum_block_weight t = from_parts (saturating_mul t.per_second 2) 18_446_744_073_709_551_615

-- That of parachain-runtime/src/lib.rs, with the relay chain's `MAX_POV_SIZE`.
unfoldable pub para_maximum_block_weight : RefTime → ℕ → Weight
para_maximum_block_weight t max_pov_size = from_parts (saturating_mul t.per_second 2) max_pov_size

-- For the SDK's own base weights, in runtime/src/lib.rs.
unfoldable pub solo_block_constants : RefTime → Weight → Weight → BlockConstants
unfolding solo_maximum_block_weight
solo_block_constants t block_execution extrinsic_base = record {
  maximum_block_weight = solo_maximum_block_weight t;
  average_on_initialize = 10;
  block_execution = block_execution;
  extrinsic_base = extrinsic_base;
}

-- In parachain-runtime/src/lib.rs.
unfoldable pub para_block_constants : RefTime → ℕ → BlockConstants
unfolding para_maximum_block_weight
para_block_constants t max_pov_size = record {
  maximum_block_weight = para_maximum_block_weight t max_pov_size;
  average_on_initialize = 5;
  block_execution = block_execution_weight t;
  extrinsic_base = extrinsic_base_weight t;
}

module _ (w : WeightsBuilder) where
  -- `RuntimeBlockWeights`, up to `build_or_panic`.
  unfoldable pub runtime_block_weights : BlockConstants → w.Builder
  runtime_block_weights c =
      let share = w.percent_of normal_dispatch_ratio c.maximum_block_weight in
      w.avg_block_initialization c.average_on_initialize (
        w.for_class (operational ∷ [])
          (λ weights. record weights {
            max_total = some c.maximum_block_weight;
            reserved = some (w.sub c.maximum_block_weight share);
          })
          (w.for_class (normal ∷ []) (λ weights. record weights { max_total = some share })
            (w.for_class all_classes
              (λ weights. record weights { base_extrinsic = c.extrinsic_base })
              (w.base_block c.block_execution w.builder))))
