-- ===== src/Runtime/Fees.antt =====
-- parachain-runtime/src/lib.rs: `WeightToFee`, the fee of a weight as a polynomial.
use ink_node.Base.{ℕ, ◌+◌, ◌*◌, ◌/◌, ◌%◌, ◌^◌, ◌<◌, ◌≡◌, Bool, false, List, [], ◌∷◌, arith}
use native.Mathlib.Nat.{div-add-mod, mod-eq_of_lt}
use ink_node.Runtime.Words.{mul_balance}
use ink_node.Runtime.Units.{millicents}

pub record WeightToFeeCoefficient : Type 0 where
  pub degree : ℕ
  pub negative : Bool
  pub coeff_frac : ℕ
  pub coeff_integer : ℕ

-- `WeightToFee::polynomial`, for `Perbill::from_rational` in parts of a billion and the reference
-- time of an extrinsic's base weight.
unfoldable pub polynomial : (ℕ → ℕ → ℕ) → ℕ → List WeightToFeeCoefficient
polynomial from_rational base =
    let p = millicents / 10 in
    let q = mul_balance 100 base in
    record {
      degree = 1;
      negative = false;
      coeff_frac = from_rational (p % q) q;
      coeff_integer = p / q;
    }
    ∷ []

-- The value of a polynomial of degree one at a weight, in billionths.
unfoldable pub billionths : List WeightToFeeCoefficient → ℕ → ℕ
billionths [] w = 0
billionths (c ∷ cs) w = (c.coeff_integer * 1_000_000_000 + c.coeff_frac) * w + billionths cs w

-- Where the fraction is a whole number of billionths, an extrinsic's base weight costs a thousandth
-- of a millicent, and not the tenth that the comment in the source speaks of.
pub base_weight_fee :
    (from_rational : ℕ → ℕ → ℕ) (base : ℕ)
    → base < 2 ^ 64
    → from_rational (millicents / 10 % (100 * base)) (100 * base) * (100 * base)
      ≡ millicents / 10 % (100 * base) * 1_000_000_000
    → billionths (polynomial from_rational base) base * 1_000 ≡ millicents * 1_000_000_000
unfolding polynomial billionths
base_weight_fee from_rational base small exact =
    rw (mod-eq_of_lt {n = 100 * base} {m = 2 ^ 128} (omega arith))
      (omega (arith, div-add-mod 10_000 (100 * base)))
