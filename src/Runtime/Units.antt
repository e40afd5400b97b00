-- ===== src/Runtime/Units.antt =====
-- The balance units and the block times of runtime/src/lib.rs and parachain-runtime/src/lib.rs.
-- Both runtimes write the balance units alike.
use ink_node.Base.{ℕ, ◌*◌, ◌/◌, ◌%◌, ◌^◌}

abbrev pub units : ℕ
units = 10_000_000_000

abbrev pub dollars : ℕ
dollars = units

abbrev pub cents : ℕ
cents = dollars / 100

abbrev pub millicents : ℕ
millicents = cents / 1_000

abbrev pub existential_deposit : ℕ
existential_deposit = cents

abbrev pub millisecs_per_block : ℕ
millisecs_per_block = 6000

abbrev pub slot_duration : ℕ
slot_duration = millisecs_per_block

-- `MILLISECS_PER_BLOCK as BlockNumber` is a cast to `u32`.
abbrev pub minutes : ℕ
minutes = 60_000 / (millisecs_per_block % 2 ^ 32)

abbrev pub hours : ℕ
hours = minutes * 60

abbrev pub days : ℕ
days = hours * 24
