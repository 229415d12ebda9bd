-- ===== src/Frontend/Wire/Directory.antt =====
-- One directory entry of the image (`buildWireImage`), and buffers that grow at their end.
use luauc.Prelude.{
  ℕ, zero, suc, ◌+◌, ◌/◌, ◌^◌, ◌≤◌, ◌<◌, ◌≡◌, ◌⊎◌, inl, inr, refl, sym, ap, ◌∙◌, List, ◌++◌, arith,
  length, get_or, length-append, get_or-append_left, get_or-append_right,
}
use native.Mathlib.Nat.{mod-eq_of_lt, div-le_self}
use luauc.Frontend.Wire.{SectionData, record_count, put_u16, put_u32, put_u64, put_directory}
use luauc.Frontend.Wire.Bytes.{
  SameOutside, SameOutside-trans, SameOutside-widen, put_u16-SameOutside, put_u32-SameOutside,
  put_u64-SameOutside, read_le, read_le-SameOutside, read_le-append, read_le-put_u16,
  read_le-put_u32, read_le-put_u64,
}

-- `after` is no shorter, and has the bytes of `before` but in the range from `lo` to `hi`.
pub record Grows (lo hi : ℕ) (before after : List ℕ) : Type 0 where
  pub longer : length before ≤ length after
  pub same_byte :
      (j : ℕ) → j < length before → (j < lo) ⊎ (hi ≤ j) → get_or after j 0 ≡ get_or before j 0

pub Grows-trans : {lo hi : ℕ} {a b c : List ℕ} → Grows lo hi a b → Grows lo hi b c → Grows lo hi a c
Grows-trans p q = record {
  longer = omega (arith, p.longer, q.longer);
  same_byte = λ j h o. q.same_byte j (omega (arith, p.longer)) o ∙ p.same_byte j h o;
}

pub Grows-widen :
    (lo hi lo' hi' : ℕ) {a b : List ℕ} → lo' ≤ lo → hi ≤ hi' → Grows lo hi a b → Grows lo' hi' a b
Grows-widen lo hi lo' hi' p q s = record {
  longer = s.longer;
  same_byte = λ j h o. s.same_byte j h (wide j o);
}
  where
    wide : (j : ℕ) → (j < lo') ⊎ (hi' ≤ j) → (j < lo) ⊎ (hi ≤ j)
    wide j (inl r) = inl (omega arith)
    wide j (inr r) = inr (omega arith)

pub Grows-append :
    {lo hi : ℕ} {a b : List ℕ} (bytes : List ℕ) → SameOutside lo hi a b → Grows lo hi a (b ++ bytes)
Grows-append {b = b} bytes s = record {
  longer = omega (arith, s.same_length, length-append b bytes);
  same_byte =
      λ j h o. get_or-append_left b bytes j 0 (omega (arith, s.same_length)) ∙ s.same_byte j o;
}

pub read_le-Grows :
    (n : ℕ) {lo hi : ℕ} {a b : List ℕ} (off : ℕ)
    → off + n ≤ length a
    → (off + n ≤ lo) ⊎ (hi ≤ off)
    → Grows lo hi a b
    → read_le n b off ≡ read_le n a off
unfolding read_le
read_le-Grows zero off l h s = refl
read_le-Grows (suc n) off l (inl h) s = omega (
  arith,
  s.same_byte off (omega arith) (inl (omega arith)),
  read_le-Grows n (off + 1) (omega arith) (inl (omega arith)) s,
)
read_le-Grows (suc n) off l (inr h) s = omega (
  arith,
  s.same_byte off (omega arith) (inr h),
  read_le-Grows n (off + 1) (omega arith) (inr (omega arith)) s,
)

-- The entry at `directory` describes `item`, whose bytes stand at `offset`.
pub record Located (image : List ℕ) (directory offset : ℕ) (item : SectionData) : Type 0 where
  pub kind_word : read_le 2 image directory ≡ item.kind
  pub width_word : read_le 4 image (directory + 4) ≡ item.record_size
  pub offset_word : read_le 8 image (directory + 8) ≡ offset
  pub length_word : read_le 8 image (directory + 16) ≡ length item.bytes
  pub count_word : read_le 4 image (directory + 24) ≡ length item.bytes / item.record_size
  pub inside : offset + length item.bytes ≤ length image
  pub payload :
      (j : ℕ) → j < length item.bytes → get_or image (offset + j) 0 ≡ get_or item.bytes j 0

pub Located-Grows :
    {lo hi : ℕ} {a b : List ℕ} {directory offset : ℕ} {item : SectionData}
    → directory + 32 ≤ lo
    → lo ≤ length a
    → hi ≤ offset
    → Grows lo hi a b
    → Located a directory offset item
    → Located b directory offset item
Located-Grows {directory = d} {offset = o} p r q s l = record {
  kind_word = read_le-Grows 2 d (omega arith) (inl (omega arith)) s ∙ l.kind_word;
  width_word = read_le-Grows 4 (d + 4) (omega arith) (inl (omega arith)) s ∙ l.width_word;
  offset_word = read_le-Grows 8 (d + 8) (omega arith) (inl (omega arith)) s ∙ l.offset_word;
  length_word = read_le-Grows 8 (d + 16) (omega arith) (inl (omega arith)) s ∙ l.length_word;
  count_word = read_le-Grows 4 (d + 24) (omega arith) (inl (omega arith)) s ∙ l.count_word;
  inside = omega (arith, l.inside, s.longer);
  payload =
      λ j h. s.same_byte (o + j) (omega (arith, l.inside)) (inr (omega arith)) ∙ l.payload j h;
}

-- The sizes that the words of an entry can hold.
pub record Fits (item : SectionData) : Type 0 where
  pub kind_fits : item.kind < 2 ^ 16
  pub width_fits : item.record_size < 2 ^ 32
  pub length_fits : length item.bytes < 2 ^ 32

module _ (output : List ℕ) (d : ℕ) (item : SectionData) (offset : ℕ) where
  step₁ : List ℕ
  step₁ = put_u16 output d item.kind

  step₂ : List ℕ
  step₂ = put_u32 step₁ (d + 4) item.record_size

  step₃ : List ℕ
  step₃ = put_u64 step₂ (d + 8) offset

  step₄ : List ℕ
  step₄ = put_u64 step₃ (d + 16) (length item.bytes)

  step₅ : List ℕ
  step₅ = put_u32 step₄ (d + 24) (record_count item)

  same₁ : SameOutside d (d + 2) output step₁
  unfolding step₁
  same₁ = put_u16-SameOutside output d item.kind

  same₂ : SameOutside (d + 4) (d + 4 + 4) step₁ step₂
  unfolding step₂
  same₂ = put_u32-SameOutside step₁ (d + 4) item.record_size

  same₃ : SameOutside (d + 8) (d + 8 + 8) step₂ step₃
  unfolding step₃
  same₃ = put_u64-SameOutside step₂ (d + 8) offset

  same₄ : SameOutside (d + 16) (d + 16 + 8) step₃ step₄
  unfolding step₄
  same₄ = put_u64-SameOutside step₃ (d + 16) (length item.bytes)

  same₅ : SameOutside (d + 24) (d + 24 + 4) step₄ step₅
  unfolding step₅
  same₅ = put_u32-SameOutside step₄ (d + 24) (record_count item)

  same_all : SameOutside d (d + 32) output step₅
  same_all =
      SameOutside-trans (SameOutside-widen d (d + 2) d (d + 32) (omega arith) (omega arith) same₁) (
        SameOutside-trans
          (SameOutside-widen (d + 4) (d + 4 + 4) d (d + 32) (omega arith) (omega arith) same₂)
          (SameOutside-trans
            (SameOutside-widen (d + 8) (d + 8 + 8) d (d + 32) (omega arith) (omega arith) same₃)
            (SameOutside-trans
              (SameOutside-widen (d + 16) (d + 16 + 8) d (d + 32) (omega arith) (omega arith) same₄)
              (SameOutside-widen (d + 24) (d + 24 + 4) d (d + 32) (omega arith) (omega arith)
                same₅))))

  -- A field that ends below `d + 4`, `d + 8`, ... is not touched by the later steps.
  after₅ : (n off : ℕ) → off + n ≤ d + 24 → read_le n step₅ off ≡ read_le n step₄ off
  after₅ n off h = read_le-SameOutside n off (inl h) same₅

  after₄ : (n off : ℕ) → off + n ≤ d + 16 → read_le n step₅ off ≡ read_le n step₃ off
  after₄ n off h = after₅ n off (omega arith) ∙ read_le-SameOutside n off (inl h) same₄

  after₃ : (n off : ℕ) → off + n ≤ d + 8 → read_le n step₅ off ≡ read_le n step₂ off
  after₃ n off h = after₄ n off (omega arith) ∙ read_le-SameOutside n off (inl h) same₃

  after₂ : (n off : ℕ) → off + n ≤ d + 4 → read_le n step₅ off ≡ read_le n step₁ off
  after₂ n off h = after₃ n off (omega arith) ∙ read_le-SameOutside n off (inl h) same₂

  module _ (room : d + 32 ≤ length output) (fits : Fits item) (small : offset < 2 ^ 64)
      (at_end : offset ≡ length output) where
    count_small : record_count item ≡ length item.bytes / item.record_size
    unfolding record_count
    count_small =
        mod-eq_of_lt
          (omega (arith, fits.length_fits, div-le_self (length item.bytes) item.record_size))

    step₅-Located : Located (step₅ ++ item.bytes) d offset item
    unfolding step₁ step₂ step₃ step₄ step₅
    step₅-Located = record {
      kind_word =
          kept 2 d (omega arith)
          ∙ after₂ 2 d (omega arith)
          ∙ read_le-put_u16 output d item.kind (omega arith) fits.kind_fits;
      width_word =
          kept 4 (d + 4) (omega arith)
          ∙ after₃ 4 (d + 4) (omega arith)
          ∙ read_le-put_u32 step₁ (d + 4) item.record_size (omega (arith, same₁.same_length))
              fits.width_fits;
      offset_word =
          kept 8 (d + 8) (omega arith)
          ∙ after₄ 8 (d + 8) (omega arith)
          ∙ read_le-put_u64 step₂ (d + 8) offset
              (omega (arith, same₁.same_length, same₂.same_length)) small;
      length_word =
          kept 8 (d + 16) (omega arith)
          ∙ after₅ 8 (d + 16) (omega arith)
          ∙ read_le-put_u64 step₃ (d + 16) (length item.bytes)
              (omega (arith, same₁.same_length, same₂.same_length, same₃.same_length))
              (omega (arith, fits.length_fits));
      count_word =
          kept 4 (d + 24) (omega arith)
          ∙ read_le-put_u32 step₄ (d + 24) (record_count item)
              (omega
                (arith, same₁.same_length, same₂.same_length, same₃.same_length, same₄.same_length))
              (omega (
                arith,
                count_small,
                fits.length_fits,
                div-le_self (length item.bytes) item.record_size,
              ))
          ∙ count_small;
      inside = omega (arith, length-append step₅ item.bytes, same_all.same_length);
      payload = λ j h.
          ap (λ (t : ℕ). get_or (step₅ ++ item.bytes) (t + j) 0) (at_end ∙ sym same_all.same_length)
          ∙ get_or-append_right step₅ item.bytes j 0;
    }
      where
        kept :
            (n off : ℕ)
            → off + n ≤ d + 32
            → read_le n (step₅ ++ item.bytes) off ≡ read_le n step₅ off
        kept n off h = read_le-append n step₅ item.bytes off (omega (arith, same_all.same_length))

-- The entry that `put_directory` writes, with the section's bytes behind the buffer.
pub put_directory-SameOutside :
    (output : List ℕ) (d : ℕ) (item : SectionData) (offset : ℕ)
    → SameOutside d (d + 32) output (put_directory output d item offset)
unfolding put_directory step₁ step₂ step₃ step₄ step₅
put_directory-SameOutside output d item offset = same_all output d item offset

pub put_directory-Located :
    (output : List ℕ) (d : ℕ) (item : SectionData) (offset : ℕ)
    → d + 32 ≤ length output
    → Fits item
    → offset < 2 ^ 64
    → offset ≡ length output
    → Located (put_directory output d item offset ++ item.bytes) d offset item
unfolding put_directory step₁ step₂ step₃ step₄ step₅
put_directory-Located output d item offset room fits small e =
    step₅-Located output d item offset room fits small e
