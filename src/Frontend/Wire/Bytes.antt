-- ===== src/Frontend/Wire/Bytes.antt =====
-- What the byte writers leave alone, and reading back what they wrote.
use luauc.Prelude.{
  ℕ, zero, suc, ◌+◌, ◌*◌, ◌/◌, ◌%◌, ◌^◌, ◌≤◌, ◌<◌, ◌≡◌, ◌⊎◌, inl, inr, refl, sym, ap, ◌∙◌, List, [],
  ◌∷◌, ◌++◌, arith, length, set, get_or, length-set, get_or-set, get_or-append_left,
}
use luauc.Frontend.Wire.{put_loop, put_u16, put_u32, put_u64, copy_bytes}
use native.Mathlib.Nat.{add_assoc, add-zero, pow-suc, div-div-eq-div-mul}
use native.Mathlib.Numerals.{towards_suc}

-- `after` has the bytes of `before` outside the half-open range from `lo` to `hi`.
pub record SameOutside (lo hi : ℕ) (before after : List ℕ) : Type 0 where
  pub same_length : length after ≡ length before
  pub same_byte : (j : ℕ) → (j < lo) ⊎ (hi ≤ j) → get_or after j 0 ≡ get_or before j 0

pub SameOutside-refl : (lo hi : ℕ) (o : List ℕ) → SameOutside lo hi o o
SameOutside-refl lo hi o = record { same_length = refl; same_byte = λ j h. refl }

pub SameOutside-trans :
    {lo hi : ℕ} {a b c : List ℕ}
    → SameOutside lo hi a b
    → SameOutside lo hi b c
    → SameOutside lo hi a c
SameOutside-trans p q = record {
  same_length = q.same_length ∙ p.same_length;
  same_byte = λ j h. q.same_byte j h ∙ p.same_byte j h;
}

widened : (lo hi lo' hi' j : ℕ) → lo' ≤ lo → hi ≤ hi' → (j < lo') ⊎ (hi' ≤ j) → (j < lo) ⊎ (hi ≤ j)
widened lo hi lo' hi' j p q (inl r) = inl (omega arith)
widened lo hi lo' hi' j p q (inr r) = inr (omega arith)

pub SameOutside-widen :
    (lo hi lo' hi' : ℕ) {a b : List ℕ}
    → lo' ≤ lo
    → hi ≤ hi'
    → SameOutside lo hi a b
    → SameOutside lo' hi' a b
SameOutside-widen lo hi lo' hi' p q s = record {
  same_length = s.same_length;
  same_byte = λ j h. s.same_byte j (widened lo hi lo' hi' j p q h);
}

pub set-SameOutside :
    (o : List ℕ) (i v lo hi : ℕ) → lo ≤ i → i < hi → SameOutside lo hi o (set o i v)
set-SameOutside o i v lo hi p q = record {
  same_length = length-set o i v;
  same_byte = λ j h. ground (arith, get_or-set o i j v 0);
}

pub put_loop-SameOutside :
    (n k shift : ℕ) (o : List ℕ) (off v : ℕ)
    → shift ≡ 8 * k
    → SameOutside (off + k) (off + k + n) o (put_loop n shift o off v)
unfolding put_loop
put_loop-SameOutside zero k shift o off v e = SameOutside-refl _ _ o
put_loop-SameOutside (suc n) k shift o off v e =
    SameOutside-trans
      (set-SameOutside o (off + shift / 8) (v / 2 ^ shift % 256) (off + k) (off + k + suc n)
        (omega arith) (omega arith))
      (SameOutside-widen (off + (k + 1)) (off + (k + 1) + n) (off + k) (off + k + suc n)
        (omega arith) (omega arith)
        (put_loop-SameOutside n (k + 1) (shift + 8) (set o (off + shift / 8) (v / 2 ^ shift % 256))
          off v (omega arith)))

module _ (o : List ℕ) (off v : ℕ) where
  pub put_u16-SameOutside : SameOutside off (off + 2) o (put_u16 o off v)
  unfolding put_u16
  put_u16-SameOutside =
      SameOutside-trans (set-SameOutside o off (v % 256) off (off + 2) (omega arith) (omega arith))
        (set-SameOutside _ (off + 1) (v / 2 ^ 8 % 256) off (off + 2) (omega arith) (omega arith))

  pub put_u32-SameOutside : SameOutside off (off + 4) o (put_u32 o off v)
  unfolding put_u32
  put_u32-SameOutside =
      SameOutside-widen (off + 0) (off + 0 + 4) off (off + 4) (omega arith) (omega arith)
        (put_loop-SameOutside 4 0 0 o off v refl)

  pub put_u64-SameOutside : SameOutside off (off + 8) o (put_u64 o off v)
  unfolding put_u64
  put_u64-SameOutside =
      SameOutside-widen (off + 0) (off + 0 + 8) off (off + 8) (omega arith) (omega arith)
        (put_loop-SameOutside 8 0 0 o off v refl)

pub copy_bytes-SameOutside :
    (bytes o : List ℕ) (off : ℕ) → SameOutside off (off + length bytes) o (copy_bytes o off bytes)
unfolding copy_bytes
copy_bytes-SameOutside [] o off = SameOutside-refl _ _ o
copy_bytes-SameOutside (b ∷ bs) o off =
    SameOutside-trans
      (set-SameOutside o off b off (off + suc (length bs)) (omega arith) (omega arith))
      (SameOutside-widen (off + 1) (off + 1 + length bs) off (off + suc (length bs)) (omega arith)
        (omega arith) (copy_bytes-SameOutside bs (set o off b) (off + 1)))

-- The little-endian number in `n` bytes from `off` on.
unfoldable pub read_le : ℕ → List ℕ → ℕ → ℕ
read_le zero o off = 0
read_le (suc n) o off = get_or o off 0 + 256 * read_le n o (off + 1)

pub read_le-SameOutside :
    (n : ℕ) {lo hi : ℕ} {a b : List ℕ} (off : ℕ)
    → (off + n ≤ lo) ⊎ (hi ≤ off)
    → SameOutside lo hi a b
    → read_le n b off ≡ read_le n a off
unfolding read_le
read_le-SameOutside zero off h s = refl
read_le-SameOutside (suc n) off (inl h) s = omega (
  arith,
  s.same_byte off (inl (omega arith)),
  read_le-SameOutside n (off + 1) (inl (omega arith)) s,
)
read_le-SameOutside (suc n) off (inr h) s =
    omega (arith, s.same_byte off (inr h), read_le-SameOutside n (off + 1) (inr (omega arith)) s)

pub read_le-append :
    (n : ℕ) (a b : List ℕ) (off : ℕ) → off + n ≤ length a → read_le n (a ++ b) off ≡ read_le n a off
unfolding read_le
read_le-append zero a b off h = refl
read_le-append (suc n) a b off h = omega (
  arith,
  get_or-append_left a b off 0 (omega arith),
  read_le-append n a b (off + 1) (omega arith),
)

shift_eight : (s : ℕ) → 2 ^ (s + 8) ≡ 2 ^ s * 256
shift_eight s = simp towards_suc (omega arith)

next_byte : (v k : ℕ) → v / 2 ^ (8 * (k + 1)) ≡ v / 2 ^ (8 * k) / 256
next_byte v k =
    let e : 8 * (k + 1) ≡ 8 * k + 8 = omega arith in
    rw (e, shift_eight) (sym (div-div-eq-div-mul v (2 ^ (8 * k)) 256))

read_le-put_loop :
    (n k shift : ℕ) (o : List ℕ) (off v : ℕ)
    → shift ≡ 8 * k
    → off + k + n ≤ length o
    → v / 2 ^ (8 * k) < 256 ^ n
    → read_le n (put_loop n shift o off v) (off + k) ≡ v / 2 ^ (8 * k)
unfolding read_le put_loop
read_le-put_loop zero k shift o off v e h f = omega arith
read_le-put_loop (suc n) k shift o off v e h f =
    let o' = set o (off + shift / 8) (v / 2 ^ shift % 256) in
    let rest = put_loop-SameOutside n (k + 1) (shift + 8) o' off v (omega arith) in
    let first : get_or o' (off + k) 0 ≡ v / 2 ^ (8 * k) % 256 =
      rw e (ground (arith, get_or-set o (off + 8 * k / 8) (off + k) (v / 2 ^ (8 * k) % 256) 0)) in
    omega (
      arith,
      first,
      rest.same_byte (off + k) (inl (omega arith)),
      ap (λ (t : ℕ). read_le n (put_loop n (shift + 8) o' off v) t) (add_assoc off k 1),
      read_le-put_loop n (k + 1) (shift + 8) o' off v (omega arith)
          (omega (arith, length-set o (off + shift / 8) (v / 2 ^ shift % 256)))
          (omega (arith, next_byte v k, pow-suc 256 n)),
      next_byte v k,
    )

module _ (o : List ℕ) (off v : ℕ) where
  pub read_le-put_u16 : off + 2 ≤ length o → v < 2 ^ 16 → read_le 2 (put_u16 o off v) off ≡ v
  unfolding read_le put_u16
  read_le-put_u16 h f = ground (
    arith,
    get_or-set (set o off (v % 256)) (off + 1) off (v / 2 ^ 8 % 256) 0,
    get_or-set (set o off (v % 256)) (off + 1) (off + 1) (v / 2 ^ 8 % 256) 0,
    get_or-set o off off (v % 256) 0,
    length-set o off (v % 256),
  )

  pub read_le-put_u32 : off + 4 ≤ length o → v < 2 ^ 32 → read_le 4 (put_u32 o off v) off ≡ v
  unfolding put_u32
  read_le-put_u32 h f =
      ap (λ (t : ℕ). read_le 4 (put_loop 4 0 o off v) t) (sym (add-zero off))
      ∙ read_le-put_loop 4 0 0 o off v refl (omega arith) (omega arith)
      ∙ omega arith

  pub read_le-put_u64 : off + 8 ≤ length o → v < 2 ^ 64 → read_le 8 (put_u64 o off v) off ≡ v
  unfolding put_u64
  read_le-put_u64 h f =
      ap (λ (t : ℕ). read_le 8 (put_loop 8 0 o off v) t) (sym (add-zero off))
      ∙ read_le-put_loop 8 0 0 o off v refl (omega arith) (omega arith)
      ∙ omega arith
