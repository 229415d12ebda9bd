-- ===== src/Runtime/Strings/Sub.antt =====
-- The range of `luauc_runtime_v1_sub_string` against the positions that `string.sub` selects.
use luauc.Prelude.{ℕ, ◌+◌, ◌≤◌, ◌<◌, arith}
use luauc.Prelude.Words.{ℤ, pos, negsuc}
use luauc.Runtime.Strings.{first_position, last_position, sub_range}

-- Position `p`, counted from 1, is at the bound or behind it; a negative bound counts from the end.
abbrev pub IsFrom : ℤ → ℕ → ℕ → Type 0
IsFrom (pos n) size p = n ≤ p
IsFrom (negsuc n) size p = size ≤ p + n

-- Position `p` is at the bound or before it.
abbrev pub IsTo : ℤ → ℕ → ℕ → Type 0
IsTo (pos n) size p = p ≤ n
IsTo (negsuc n) size p = p + n ≤ size

-- The range is that of the positions between the bounds.
pub record Selects (start end : ℤ) (size : ℕ) (range : ℕ × ℕ) : Type 0 where
  pub inside : range.0 + range.1 ≤ size
  pub sound : (p : ℕ) → range.0 < p → p ≤ range.0 + range.1 → IsFrom start size p × IsTo end size p
  pub complete :
      (p : ℕ)
      → 1 ≤ p
      → p ≤ size
      → IsFrom start size p
      → IsTo end size p
      → (range.0 < p) × (p ≤ range.0 + range.1)

-- Whatever the two bounds are, the slice lies in the text, and it has exactly the positions of the text
-- from the first bound to the second one, where a negative bound counts from the end.
pub sub_range-Selects :
    (start end : ℤ) (size : ℕ) → Selects start end size (sub_range start end size)
unfolding sub_range first_position last_position
sub_range-Selects (pos a) (pos b) size = record {
  inside = ground arith;
  sound = λ p l u. (ground arith, ground arith);
  complete = λ p l u f t. (ground arith, ground arith);
}
sub_range-Selects (pos a) (negsuc b) size = record {
  inside = ground arith;
  sound = λ p l u. (ground arith, ground arith);
  complete = λ p l u f t. (ground arith, ground arith);
}
sub_range-Selects (negsuc a) (pos b) size = record {
  inside = ground arith;
  sound = λ p l u. (ground arith, ground arith);
  complete = λ p l u f t. (ground arith, ground arith);
}
sub_range-Selects (negsuc a) (negsuc b) size = record {
  inside = ground arith;
  sound = λ p l u. (ground arith, ground arith);
  complete = λ p l u f t. (ground arith, ground arith);
}
