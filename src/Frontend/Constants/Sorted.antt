-- ===== src/Frontend/Constants/Sorted.antt =====
-- The sort of the items by key.
use luauc.Prelude.{◌≤◌, ◌<◌, ◌≡◌, ◌⊎◌, inl, inr, false, List, [], ◌∷◌, arith, leb, All, Bool-cases}
use luauc.Frontend.Constants.{TableItem, insert_item, sort_items, has_duplicate}

abbrev pub IsIn : TableItem → List TableItem → Type 0
IsIn item [] = ⊥
IsIn item (first ∷ items) = (item ≡ first) ⊎ IsIn item items

-- The keys ascend, and no two are equal.
abbrev pub IsAscending : List TableItem → Type 0
IsAscending [] = Unit
IsAscending (item ∷ items) =
    All (λ (other : TableItem). item.key < other.key) items × IsAscending items

pub insert_item-IsIn :
    (item new : TableItem) (items : List TableItem)
    → (item ≡ new) ⊎ IsIn item items
    → IsIn item (insert_item new items)
unfolding insert_item
insert_item-IsIn item new [] (inl e) = inl e
insert_item-IsIn item new [] (inr m) = elim m [ ]
insert_item-IsIn item new (first ∷ items) o = elim (Bool-cases (leb new.key first.key)) [
  | inl e ↦ rw e o
  | inr e ↦ rw e (elim o [
    | inl m ↦ inr (insert_item-IsIn item new items (inl m))
    | inr (inl m) ↦ inl m
    | inr (inr m) ↦ inr (insert_item-IsIn item new items (inr m))
  ])
]

pub sort_items-IsIn :
    (item : TableItem) (items : List TableItem) → IsIn item items → IsIn item (sort_items items)
unfolding sort_items
sort_items-IsIn item [] m = elim m [ ]
sort_items-IsIn item (first ∷ items) (inl e) =
    insert_item-IsIn item first (sort_items items) (inl e)
sort_items-IsIn item (first ∷ items) (inr m) =
    insert_item-IsIn item first (sort_items items) (inr (sort_items-IsIn item items m))

pub insert_item-All :
    (P : TableItem → Type 0) (new : TableItem) (items : List TableItem)
    → P new
    → All P items
    → All P (insert_item new items)
unfolding insert_item
insert_item-All P new [] p a = (p, tt)
insert_item-All P new (first ∷ items) p (q, a) = elim (Bool-cases (leb new.key first.key)) [
  | inl e ↦ rw e (p, (q, a))
  | inr e ↦ rw e (q, insert_item-All P new items p a)
]

pub sort_items-All :
    (P : TableItem → Type 0) (items : List TableItem) → All P items → All P (sort_items items)
unfolding sort_items
sort_items-All P [] a = tt
sort_items-All P (item ∷ items) (p, a) =
    insert_item-All P item (sort_items items) p (sort_items-All P items a)

-- The keys ascend, with equal ones side by side.
abbrev pub IsSorted : List TableItem → Type 0
IsSorted [] = Unit
IsSorted (item ∷ items) = All (λ (other : TableItem). item.key ≤ other.key) items × IsSorted items

All-weaken :
    (P Q : TableItem → Type 0) (items : List TableItem)
    → ((item : TableItem) → P item → Q item)
    → All P items
    → All Q items
All-weaken P Q [] f a = tt
All-weaken P Q (item ∷ items) f (p, a) = (f item p, All-weaken P Q items f a)

pub insert_item-IsSorted :
    (new : TableItem) (items : List TableItem) → IsSorted items → IsSorted (insert_item new items)
unfolding insert_item
insert_item-IsSorted new [] s = (tt, tt)
insert_item-IsSorted new (first ∷ items) (a, s) = elim (Bool-cases (leb new.key first.key)) [
  | inl e ↦
      rw e ((ground (arith, e), All-weaken _ _ items (λ item l. ground (arith, e, l)) a), (a, s))
  | inr e ↦ rw e (
    insert_item-All (λ (other : TableItem). first.key ≤ other.key) new items (ground (arith, e)) a,
    insert_item-IsSorted new items s,
  )
]

pub sort_items-IsSorted : (items : List TableItem) → IsSorted (sort_items items)
unfolding sort_items
sort_items-IsSorted [] = tt
sort_items-IsSorted (item ∷ items) =
    insert_item-IsSorted item (sort_items items) (sort_items-IsSorted items)

pub distinct-IsAscending :
    (items : List TableItem) → IsSorted items → has_duplicate items ≡ false → IsAscending items
unfolding has_duplicate
distinct-IsAscending [] s h = tt
distinct-IsAscending (item ∷ []) s h = (tt, tt)
distinct-IsAscending (item ∷ next ∷ items) ((l, a), (b, s)) h =
    let apart : item.key < next.key = ground (arith, l, h) in
    (
      (apart, All-weaken _ _ items (λ other m. ground (arith, apart, m)) b),
      distinct-IsAscending (next ∷ items) (b, s) (ground (arith, h)),
    )
