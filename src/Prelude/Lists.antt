-- ===== src/Prelude/Lists.antt =====
-- Lists measured and indexed by native numbers, under the library's names.
use Prim.Native.Nat.{ℕ, zero, suc, ◌+◌, ◌≤◌, ◌<◌}
use mathlib.Core.Path.{◌≡◌, refl, ap}
use mathlib.Core.Logic.{◌⊎◌, ◌≢◌, inl, inr}
use native.Mathlib.Nat.{zero-add, suc-add}
use mathlib.Core.Bool.{Bool, true, ◌&&◌}
use mathlib.Core.List.{List, [], ◌∷◌, ◌++◌}
use mathlib.Core.Option.{Option, none, some}
use native.Mathlib.Omega.{arith}
use luauc.Prelude.Tests.{if◌then◌else◌, ◌==◌, ltb}

module _ {ℓ} {A : Type ℓ} where
  abbrev pub length : List A → ℕ
  length [] = 0
  length (x ∷ xs) = suc (length xs)

  abbrev pub get_elem? : List A → ℕ → Option A
  get_elem? [] i = none
  get_elem? (x ∷ xs) zero = some x
  get_elem? (x ∷ xs) (suc i) = get_elem? xs i

  abbrev pub get_or : List A → ℕ → A → A
  get_or [] i d = d
  get_or (x ∷ xs) zero d = x
  get_or (x ∷ xs) (suc i) d = get_or xs i d

  -- A write out of bounds changes nothing.
  abbrev pub set : List A → ℕ → A → List A
  set [] i v = []
  set (x ∷ xs) zero v = v ∷ xs
  set (x ∷ xs) (suc i) v = x ∷ set xs i v

  abbrev pub take : ℕ → List A → List A
  take zero xs = []
  take (suc n) [] = []
  take (suc n) (x ∷ xs) = x ∷ take n xs

  abbrev pub drop : ℕ → List A → List A
  drop zero xs = xs
  drop (suc n) [] = []
  drop (suc n) (x ∷ xs) = drop n xs

  abbrev pub replicate : ℕ → A → List A
  replicate zero a = []
  replicate (suc n) a = a ∷ replicate n a

  abbrev pub all : (A → Bool) → List A → Bool
  all p [] = true
  all p (x ∷ xs) = p x && all p xs

  abbrev pub All {κ} : (A → Type κ) → List A → Type κ
  All P [] = Unit {κ}
  All P (x ∷ xs) = P x × All P xs

module _ {ℓ} {A : Type ℓ} where
  pub length-append : (xs ys : List A) → length (xs ++ ys) ≡ length xs + length ys
  length-append [] ys = omega arith
  length-append (x ∷ xs) ys = omega (arith, length-append xs ys)

  pub length-set : (xs : List A) (i : ℕ) (v : A) → length (set xs i v) ≡ length xs
  length-set [] i v = refl
  length-set (x ∷ xs) zero v = refl
  length-set (x ∷ xs) (suc i) v = ap suc (length-set xs i v)

  pub length-replicate : (n : ℕ) (a : A) → length (replicate n a) ≡ n
  length-replicate zero a = refl
  length-replicate (suc n) a = ap suc (length-replicate n a)

  pub get_or-set :
      (xs : List A) (i j : ℕ) (v d : A)
      → get_or (set xs i v) j d ≡ (if i == j && ltb j (length xs) then v else get_or xs j d)
  get_or-set [] i j v d = ground arith
  get_or-set (x ∷ xs) zero zero v d = ground arith
  get_or-set (x ∷ xs) zero (suc j) v d = ground arith
  get_or-set (x ∷ xs) (suc i) zero v d = ground arith
  get_or-set (x ∷ xs) (suc i) (suc j) v d = ground (arith, get_or-set xs i j v d)

  pub get_or-append_left :
      (xs ys : List A) (j : ℕ) (d : A) → j < length xs → get_or (xs ++ ys) j d ≡ get_or xs j d
  get_or-append_left [] ys j d h = absurd (omega arith)
  get_or-append_left (x ∷ xs) ys zero d h = refl
  get_or-append_left (x ∷ xs) ys (suc j) d h = get_or-append_left xs ys j d (omega arith)

  pub set-append_left :
      (xs ys : List A) (i : ℕ) (v : A) → i < length xs → set (xs ++ ys) i v ≡ set xs i v ++ ys
  set-append_left [] ys i v h = absurd (omega arith)
  set-append_left (x ∷ xs) ys zero v h = refl
  set-append_left (x ∷ xs) ys (suc i) v h =
      ap (λ t. x ∷ t) (set-append_left xs ys i v (omega arith))

  pub get_elem?-lt : (xs : List A) (i : ℕ) {x : A} → get_elem? xs i ≡ some x → i < length xs
  get_elem?-lt [] i h = cc
  get_elem?-lt (y ∷ xs) zero h = omega arith
  get_elem?-lt (y ∷ xs) (suc i) h = omega (arith, get_elem?-lt xs i h)

  pub get_elem?-append_left :
      (xs ys : List A) (i : ℕ) → i < length xs → get_elem? (xs ++ ys) i ≡ get_elem? xs i
  get_elem?-append_left [] ys i h = absurd (omega arith)
  get_elem?-append_left (x ∷ xs) ys zero h = refl
  get_elem?-append_left (x ∷ xs) ys (suc i) h = get_elem?-append_left xs ys i (omega arith)

  pub get_elem?-append_end :
      (xs : List A) (x : A) (ys : List A) → get_elem? (xs ++ (x ∷ ys)) (length xs) ≡ some x
  get_elem?-append_end [] x ys = refl
  get_elem?-append_end (y ∷ xs) x ys = get_elem?-append_end xs x ys

  -- The slice that starts where a prefix ends.
  pub take-drop-append :
      (xs ys zs : List A) → take (length ys) (drop (length xs) (xs ++ (ys ++ zs))) ≡ ys
  take-drop-append [] [] zs = refl
  take-drop-append [] (y ∷ ys) zs = ap (λ t. y ∷ t) (take-drop-append [] ys zs)
  take-drop-append (x ∷ xs) ys zs = take-drop-append xs ys zs

module _ {ℓ} {A : Type ℓ} where
  pub get_elem?-snoc :
      (xs : List A) (y : A) (i : ℕ) {x : A}
      → get_elem? (xs ++ (y ∷ [])) i ≡ some x
      → ((i < length xs) × (get_elem? xs i ≡ some x)) ⊎ ((i ≡ length xs) × (x ≡ y))
  get_elem?-snoc [] y zero h = inr (refl, ground arith)
  get_elem?-snoc [] y (suc i) h = cc
  get_elem?-snoc (z ∷ xs) y zero h = inl (omega arith, h)
  get_elem?-snoc (z ∷ xs) y (suc i) h = elim (get_elem?-snoc xs y i h) [
    | inl (l, e) ↦ inl (omega arith, e)
    | inr (l, e) ↦ inr (ap suc l, e)
  ]

  pub get_or-append_right :
      (xs ys : List A) (j : ℕ) (d : A) → get_or (xs ++ ys) (length xs + j) d ≡ get_or ys j d
  get_or-append_right [] ys j d = rw zero-add
  get_or-append_right (x ∷ xs) ys j d = rw suc-add (get_or-append_right xs ys j d)

  pub get_elem?-inside :
      (xs : List A) (i : ℕ) (d : A) → i < length xs → get_elem? xs i ≡ some (get_or xs i d)
  get_elem?-inside [] i d h = absurd (omega arith)
  get_elem?-inside (x ∷ xs) zero d h = refl
  get_elem?-inside (x ∷ xs) (suc i) d h = get_elem?-inside xs i d (omega arith)

  pub get_or-outside : (xs : List A) (i : ℕ) (d : A) → length xs ≤ i → get_or xs i d ≡ d
  get_or-outside [] i d h = refl
  get_or-outside (x ∷ xs) zero d h = absurd (omega arith)
  get_or-outside (x ∷ xs) (suc i) d h = get_or-outside xs i d (omega arith)

  pub get_or-set_self :
      (xs : List A) (i : ℕ) (v d : A) → i < length xs → get_or (set xs i v) i d ≡ v
  get_or-set_self xs i v d h = ground (arith, get_or-set xs i i v d)

  pub get_or-set_ne :
      (xs : List A) (i j : ℕ) (v d : A) → i ≢ j → get_or (set xs i v) j d ≡ get_or xs j d
  get_or-set_ne xs i j v d h = ground (arith, get_or-set xs i j v d)
