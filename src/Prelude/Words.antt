-- ===== src/Prelude/Words.antt =====
-- Limits of fixed-width words as native numbers, and whole numbers for the signed arguments.
use Prim.Native.Nat.{ℕ}

abbrev pub int_max : ℕ
int_max = 2147483647

abbrev pub uint32_max : ℕ
uint32_max = 4294967295

-- `NO_ID` of both ABIs.
abbrev pub no_id : ℕ
no_id = 4294967295

-- A whole number: `pos n`, or `negsuc n` for `-(n + 1)`.
pub data ℤ : Type 0 where
  pos : ℕ → ℤ
  negsuc : ℕ → ℤ
