-- ===== src/Engine/Sorted.antt =====
-- `slices.Compact(slices.Sorted(...))`: the same numbers, each once.
use muxprune.Base.{
  ◌≡◌, refl, ◌||◌, List, [], ◌∷◌, arith, ℤ, ◌≤ℤ◌, ◌<ℤ◌, leb_ℤ, eq_ℤ, eq_ℤ_iff, All, Bool-cases, inl,
  inr,
}
use muxprune.Engine.{contains_int, insert_int, sort_ints, compact, sort_compact}

abbrev IsSorted : List ℤ → Type 0
IsSorted [] = Unit
IsSorted (x ∷ xs) = All (λ y. x ≤ℤ y) xs × IsSorted xs

-- Strictly increasing.
abbrev pub IsStrict : List ℤ → Type 0
IsStrict [] = Unit
IsStrict (x ∷ xs) = All (λ y. x <ℤ y) xs × IsStrict xs

All-le_trans : (x y : ℤ) (zs : List ℤ) → x ≤ℤ y → All (λ z. y ≤ℤ z) zs → All (λ z. x ≤ℤ z) zs
All-le_trans x y [] h a = tt
All-le_trans x y (z ∷ zs) h a = (omega arith, All-le_trans x y zs h a.1)

All-lt_of_lt_le : (x y : ℤ) (zs : List ℤ) → x <ℤ y → All (λ z. y ≤ℤ z) zs → All (λ z. x <ℤ z) zs
All-lt_of_lt_le x y [] h a = tt
All-lt_of_lt_le x y (z ∷ zs) h a = (omega arith, All-lt_of_lt_le x y zs h a.1)

All-insert_int :
    (w x : ℤ) (ys : List ℤ) → w ≤ℤ x → All (λ y. w ≤ℤ y) ys → All (λ y. w ≤ℤ y) (insert_int x ys)
unfolding insert_int
All-insert_int w x [] h a = (h, tt)
All-insert_int w x (y ∷ ys) h a = elim (Bool-cases (leb_ℤ x y)) [
  | inl e ↦ rw e (h, a)
  | inr e ↦ rw e (a.0, All-insert_int w x ys h a.1)
]

insert_int-IsSorted : (x : ℤ) (ys : List ℤ) → IsSorted ys → IsSorted (insert_int x ys)
unfolding insert_int
insert_int-IsSorted x [] s = (tt, tt)
insert_int-IsSorted x (y ∷ ys) s = elim (Bool-cases (leb_ℤ x y)) [
  | inl e ↦ (let h : x ≤ℤ y = ground arith in rw e ((h, All-le_trans x y ys h s.0), s))
  | inr e ↦ rw e (All-insert_int y x ys (ground arith) s.0, insert_int-IsSorted x ys s.1)
]

sort_ints-IsSorted : (xs : List ℤ) → IsSorted (sort_ints xs)
unfolding sort_ints
sort_ints-IsSorted [] = tt
sort_ints-IsSorted (x ∷ xs) = insert_int-IsSorted x (sort_ints xs) (sort_ints-IsSorted xs)

All-compact : (w : ℤ) (xs : List ℤ) → All (λ y. w <ℤ y) xs → All (λ y. w <ℤ y) (compact xs)
unfolding compact
All-compact w [] a = tt
All-compact w (x ∷ []) a = a
All-compact w (x ∷ y ∷ ys) a = elim (Bool-cases (eq_ℤ x y)) [
  | inl e ↦ rw e (All-compact w (y ∷ ys) a.1)
  | inr e ↦ rw e (a.0, All-compact w (y ∷ ys) a.1)
]

compact-IsStrict : (xs : List ℤ) → IsSorted xs → IsStrict (compact xs)
unfolding compact
compact-IsStrict [] s = tt
compact-IsStrict (x ∷ []) s = (tt, tt)
compact-IsStrict (x ∷ y ∷ ys) s = elim (Bool-cases (eq_ℤ x y)) [
  | inl e ↦ rw e (compact-IsStrict (y ∷ ys) s.1)
  | inr e ↦
      (let h : x <ℤ y = ground (arith, s.0.0) in
        rw e (
          All-compact x (y ∷ ys) (h, All-lt_of_lt_le x y ys h s.1.0),
          compact-IsStrict (y ∷ ys) s.1,
        ))
]

-- The result has no number twice.
pub sort_compact-IsStrict : (xs : List ℤ) → IsStrict (sort_compact xs)
unfolding sort_compact
sort_compact-IsStrict xs = compact-IsStrict (sort_ints xs) (sort_ints-IsSorted xs)

contains_int-insert_int :
    (i x : ℤ) (ys : List ℤ) → contains_int (insert_int x ys) i ≡ (eq_ℤ x i || contains_int ys i)
unfolding contains_int insert_int
contains_int-insert_int i x [] = refl
contains_int-insert_int i x (y ∷ ys) = ground (arith, contains_int-insert_int i x ys)

contains_int-sort_ints : (i : ℤ) (xs : List ℤ) → contains_int (sort_ints xs) i ≡ contains_int xs i
unfolding contains_int sort_ints
contains_int-sort_ints i [] = refl
contains_int-sort_ints i (x ∷ xs) =
    ground (arith, contains_int-insert_int i x (sort_ints xs), contains_int-sort_ints i xs)

contains_int-compact : (i : ℤ) (xs : List ℤ) → contains_int (compact xs) i ≡ contains_int xs i
unfolding contains_int compact
contains_int-compact i [] = refl
contains_int-compact i (x ∷ []) = refl
contains_int-compact i (x ∷ y ∷ ys) = ground (arith, contains_int-compact i (y ∷ ys), eq_ℤ_iff x y)

-- The result has the same numbers.
pub contains_int-sort_compact :
    (i : ℤ) (xs : List ℤ) → contains_int (sort_compact xs) i ≡ contains_int xs i
unfolding sort_compact
contains_int-sort_compact i xs =
    ground (arith, contains_int-compact i (sort_ints xs), contains_int-sort_ints i xs)
