-- ===== src/Tests/Figures.antt =====
-- The theorems about the runtimes at concrete inputs.
use ink_node.Base.{
  ◌==◌, true, ℕ, ◌+◌, ◌-◌, ◌*◌, ◌/◌, ◌≡◌, refl, ◌≢◌, ◌↔◌, Option, none, some, List, [], ◌∷◌, arith,
  if◌then◌else◌,
}
use native.Mathlib.Nat.{div-le_of_le-mul, mul-le-mul}
use ink_node.Runtime.Deposits.{
  deposit, deposit_per_item, deposit_per_byte, system_para_deposit, metadata_deposit_per_byte,
  asset_deposit, asset_account_deposit, metadata_deposit_base,
}
use ink_node.Runtime.Deposits.Laws.{deposits_linear}
use ink_node.Runtime.Units.{millicents}
use ink_node.Runtime.Fees.{polynomial, billionths, base_weight_fee}
use ink_node.Runtime.Weights.{
  RefTime, Weight, DispatchClass, ClassWeights, WeightsBuilder, from_parts, runtime_block_weights,
  solo_block_constants, para_block_constants, block_execution_weight, extrinsic_base_weight,
  rocks_db_weight, parity_db_weight,
}
use ink_node.Runtime.Words.{saturating_mul}
use ink_node.Runtime.Weights.Sane.{
  block_execution_sane, extrinsic_base_sane, rocks_db_sane, parity_db_sane,
}
use ink_node.Runtime.Weights.Laws.{
  contains_class, IsLawful, IsTwoSeconds, runtime_block_weights-IsTwoSeconds,
}
use ink_node.Runtime.Precompile.{
  DemoCalls, CallResult, echo, call, ok, err, revert, foobar, foobar-echo,
}

-- The amounts that the comments of assets_config.rs give.
asset_amounts :
    (asset_deposit ≡ 2_019_000_000)
    × (asset_account_deposit ≡ 2_001_600_000)
    × (metadata_deposit_base ≡ 2_006_800_000)
    × (metadata_deposit_per_byte ≡ 100_000)
unfolding asset_deposit asset_account_deposit metadata_deposit_base metadata_deposit_per_byte
asset_amounts = (refl, refl, refl, refl)

abbrev parts_of_billion : ℕ → ℕ → ℕ
parts_of_billion p q = p * 1_000_000_000 / q

base_weight_fee_example :
    billionths (polynomial parts_of_billion 125_000_000) 125_000_000 * 1_000
    ≡ millicents * 1_000_000_000
base_weight_fee_example = base_weight_fee parts_of_billion 125_000_000 (omega arith) refl

abbrev pub picoseconds : RefTime
picoseconds = record {
  per_second = 1_000_000_000_000;
  per_millis = 1_000_000_000;
  per_micros = 1_000_000;
  per_nanos = 1_000;
}

deposits_linear_example :
    (deposit 3 4_000_000_000 ≡ 3 * deposit_per_item + 4_000_000_000 * deposit_per_byte)
    × (system_para_deposit 3 4_000_000_000
        ≡ 3 * system_para_deposit 1 0 + 4_000_000_000 * metadata_deposit_per_byte)
deposits_linear_example = deposits_linear 3 4_000_000_000 (omega arith) (omega arith)

abbrev of_db : ℕ → ℕ → Weight
of_db weight n = from_parts (saturating_mul weight n) 0

-- The four tests of parachain-runtime/src/weights.
weights_sane :
    (block_execution_sane picoseconds ≡ none)
    × (extrinsic_base_sane picoseconds ≡ none)
    × (rocks_db_sane (λ w. of_db w.read) (λ w. of_db w.write) picoseconds ≡ none)
    × (parity_db_sane (λ w. of_db w.read) (λ w. of_db w.write) picoseconds ≡ none)
unfolding block_execution_sane extrinsic_base_sane rocks_db_sane parity_db_sane
    block_execution_weight extrinsic_base_weight rocks_db_weight parity_db_weight
weights_sane = (refl, refl, refl, refl)

-- A builder that keeps the weights of each class as a function.
abbrev Classes : Type 0
Classes = DispatchClass → ClassWeights

abbrev unset : Classes
unset d = record {
  base_extrinsic = from_parts 0 0;
  max_extrinsic = none;
  max_total = none;
  reserved = none;
}

abbrev keep_classes : {A : Type 0} → A → Classes → Classes
keep_classes a b = b

abbrev set_classes : List DispatchClass → (ClassWeights → ClassWeights) → Classes → Classes
set_classes cs f b d = if contains_class cs d then f (b d) else b d

abbrev class_weights : Classes → DispatchClass → ClassWeights
class_weights b d = b d

abbrev percent : ℕ → Weight → Weight
percent r x = from_parts (r * x.ref_time / 100) (r * x.proof_size / 100)

abbrev minus : Weight → Weight → Weight
minus x y = from_parts (x.ref_time - y.ref_time) (x.proof_size - y.proof_size)

abbrev function_builder : WeightsBuilder
function_builder = record {
  Builder = Classes;
  builder = unset;
  base_block = keep_classes;
  for_class = set_classes;
  avg_block_initialization = keep_classes;
  class_of = class_weights;
  percent_of = percent;
  sub = minus;
}

function_builder-IsLawful : IsLawful function_builder
function_builder-IsLawful = record {
  class_of-base_block = λ b x c. refl;
  class_of-for_class = λ b cs f c. refl;
  class_of-avg = λ b r c. refl;
  percent_of-le = λ r x h. div-le_of_le-mul 100 (mul-le-mul h (omega arith));
  percent_of_ref_time = λ r x even. omega (arith, even);
  sub_ref_time = λ x y h. omega arith;
}

runtime_block_weights-IsTwoSeconds_example :
    IsTwoSeconds function_builder
      (runtime_block_weights function_builder
        (solo_block_constants picoseconds (from_parts 5_000_000_000 0) (from_parts 100_000_000 0)))
      (from_parts 100_000_000 0)
    × IsTwoSeconds function_builder
        (runtime_block_weights function_builder (para_block_constants picoseconds 10_485_760))
        (extrinsic_base_weight picoseconds)
runtime_block_weights-IsTwoSeconds_example =
    runtime_block_weights-IsTwoSeconds function_builder function_builder-IsLawful picoseconds
      10_485_760 (from_parts 5_000_000_000 0) (from_parts 100_000_000 0) refl

abbrev lengthen : List ℕ → List ℕ
lengthen m = 32 ∷ m

abbrev shorten : List ℕ → Option (List ℕ)
shorten [] = none
shorten (n ∷ m) = some m

-- A pallet with the one precompile, which encodes a call as its mode before its message.
abbrev encode_echo : DemoCalls → List ℕ
encode_echo (echo mode message) = mode ∷ message

abbrev bare_call : ℕ → ℕ → List ℕ → CallResult
bare_call address caller [] = err (revert "no call")
bare_call address caller (mode ∷ message) =
    if address == 720_896
    then call lengthen address caller (echo mode message)
    else err (revert "no contract")

foobar-echo_example :
    ((bare_call 720_896 5 (0 ∷ 123 ∷ []) ≡ err (revert "mode was set to 0")) ↔ ◌≡◌ {A = ℕ} 0 0)
    × (◌≢◌ {A = ℕ} 0 0
        → (out : List ℕ) × (bare_call 720_896 5 (0 ∷ 123 ∷ []) ≡ ok out)
          × (shorten out ≡ some (123 ∷ [])))
    × (foobar bare_call encode_echo shorten 5 ≡ true)
foobar-echo_example =
    foobar-echo bare_call lengthen shorten encode_echo (λ m. refl) (λ caller c. served caller c) 5 0
      (123 ∷ [])
  where
    served :
        (caller : ℕ) (c : DemoCalls)
        → bare_call 720_896 caller (encode_echo c) ≡ call lengthen 720_896 caller c
    served caller (echo mode message) = refl
