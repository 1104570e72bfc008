-- ===== src/Locks/Counts.antt =====
-- Counting the elements of a list around one of them.
use muxprune.Base.{
  ◌+◌, ◌≡◌, refl, Bool, false, List, [], ◌∷◌, ◌++◌, arith, keep_if, count_if, exists_in, All,
}

module _ {A : Type 0} (p : A → Bool) where
  pub count_if-middle :
      (xs ys : List A) (x : A)
      → count_if p (xs ++ x ∷ ys) ≡ count_if p (x ∷ []) + count_if p (xs ++ ys)
  unfolding keep_if
  count_if-middle [] ys x = ground arith
  count_if-middle (z ∷ xs) ys x = ground (arith, count_if-middle xs ys x)

  count_if-cons : (x : A) (xs : List A) → count_if p (x ∷ xs) ≡ count_if p (x ∷ []) + count_if p xs
  unfolding keep_if
  count_if-cons x xs = ground arith

  pub count_if-of_exists : (xs : List A) → exists_in p xs ≡ false → count_if p xs ≡ 0
  unfolding keep_if exists_in
  count_if-of_exists [] h = refl
  count_if-of_exists (x ∷ xs) h = ground (arith, count_if-of_exists xs)

module _ {A : Type 0} (P : A → Type 0) where
  pub All-middle : (xs ys : List A) (x : A) → All P (xs ++ x ∷ ys) → P x × All P (xs ++ ys)
  All-middle [] ys x a = a
  All-middle (z ∷ xs) ys x a = let (px, rest) = All-middle xs ys x a.1 in (px, (a.0, rest))

  pub All-insert : (xs ys : List A) (x : A) → P x → All P (xs ++ ys) → All P (xs ++ x ∷ ys)
  All-insert [] ys x px a = (px, a)
  All-insert (z ∷ xs) ys x px a = (a.0, All-insert xs ys x px a.1)
