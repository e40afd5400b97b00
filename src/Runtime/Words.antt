-- ===== src/Runtime/Words.antt =====
-- The machine integers of the runtimes, in a build without overflow checks: `u128` balances and
-- `u64` weights.
use ink_node.Base.{ℕ, ◌+◌, ◌-◌, ◌*◌, ◌%◌, ◌^◌, leb, if◌then◌else◌}

abbrev pub add_balance : ℕ → ℕ → ℕ
add_balance a b = (a + b) % 2 ^ 128

abbrev pub mul_balance : ℕ → ℕ → ℕ
mul_balance a b = (a * b) % 2 ^ 128

-- `u64::saturating_mul`.
abbrev pub saturating_mul : ℕ → ℕ → ℕ
saturating_mul a b = if leb (a * b) (2 ^ 64 - 1) then a * b else 2 ^ 64 - 1

abbrev pub mul_u64 : ℕ → ℕ → ℕ
mul_u64 a b = (a * b) % 2 ^ 64
