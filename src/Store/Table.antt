-- ===== src/Store/Table.antt =====
-- A table as the list of its rows: what the statements of internal/store/store.go have in common.
use Prim.Native.Nat.{max}
use muxprune.Base.{
  In, here, there, ℕ, ◌+◌, ◌<◌, ◌≡◌, ◌≢◌, refl, sym, Bool, true, false, not, ◌&&◌, List, [], ◌∷◌,
  ◌++◌, arith, All, Bool-cases, inl, inr, if◌then◌else◌, keep_if, exists_in,
}

module _ {R : Type 0} where
  -- `DELETE ... WHERE p`
  unfoldable pub delete_where : (R → Bool) → List R → List R
  unfolding keep_if
  delete_where p rows = keep_if (λ r. not (p r)) rows

  -- `UPDATE ... SET f WHERE p`
  unfoldable pub update_rows : (R → Bool) → (R → R) → List R → List R
  update_rows p f [] = []
  update_rows p f (r ∷ rows) = let rest = update_rows p f rows in (if p r then f r else r) ∷ rest

  -- `INTEGER PRIMARY KEY`: a new row takes the largest identifier in use, plus one.
  unfoldable pub max_key : (R → ℕ) → List R → ℕ
  max_key key [] = 0
  max_key key (r ∷ rows) = max (key r) (max_key key rows)

  abbrev pub next_key : (R → ℕ) → List R → ℕ
  next_key key rows = max_key key rows + 1

  -- `ORDER BY`: a row goes before the first one that it is not after.
  unfoldable pub insert_by : (R → R → Bool) → R → List R → List R
  insert_by after r [] = r ∷ []
  insert_by after r (x ∷ rows) =
      let rest = insert_by after r rows in if after r x then x ∷ rest else r ∷ x ∷ rows

  unfoldable pub order_by : (R → R → Bool) → List R → List R
  unfolding insert_by
  order_by after [] = []
  order_by after (r ∷ rows) = insert_by after r (order_by after rows)

  pub All-keep_if :
      (P : R → Type 0) (p : R → Bool) (rows : List R) → All P rows → All P (keep_if p rows)
  unfolding keep_if
  All-keep_if P p [] h = tt
  All-keep_if P p (r ∷ rows) h = elim (Bool-cases (p r)) [
    | inl e ↦ rw e (h.0, All-keep_if P p rows h.1)
    | inr e ↦ rw e (All-keep_if P p rows h.1)
  ]

  pub All-append :
      (P : R → Type 0) (rows : List R) (r : R) → All P rows → P r → All P (rows ++ r ∷ [])
  All-append P [] r h p = (p, tt)
  All-append P (x ∷ rows) r h p = (h.0, All-append P rows r h.1 p)

  -- What every row that is kept satisfies, and what holds of every row of the two kinds.
  pub All-update_rows :
      (P : R → Type 0) (p : R → Bool) (f : R → R) (rows : List R)
      → ((r : R) → p r ≡ true → P r → P (f r))
      → All P rows
      → All P (update_rows p f rows)
  unfolding update_rows
  All-update_rows P p f [] k h = tt
  All-update_rows P p f (r ∷ rows) k h = elim (Bool-cases (p r)) [
    | inl e ↦ rw e (k r e h.0, All-update_rows P p f rows k h.1)
    | inr e ↦ rw e (h.0, All-update_rows P p f rows k h.1)
  ]

  pub All-map : (P Q : R → Type 0) (rows : List R) → ((r : R) → P r → Q r) → All P rows → All Q rows
  All-map P Q [] k h = tt
  All-map P Q (r ∷ rows) k h = (k r h.0, All-map P Q rows k h.1)

  -- A test that holds of a row holds of one after a deletion that spares all such rows.
  pub exists_in-delete_where :
      (q p : R → Bool) (rows : List R)
      → exists_in q rows ≡ true
      → exists_in (λ r. q r && p r) rows ≡ false
      → exists_in q (delete_where p rows) ≡ true
  unfolding exists_in delete_where keep_if
  exists_in-delete_where q p [] h n = h
  exists_in-delete_where q p (r ∷ rows) h n = ground (arith, exists_in-delete_where q p rows)

  pub exists_in-update_rows :
      (q p : R → Bool) (f : R → R) (rows : List R)
      → ((r : R) → p r ≡ true → q (f r) ≡ q r)
      → exists_in q (update_rows p f rows) ≡ exists_in q rows
  unfolding exists_in update_rows
  exists_in-update_rows q p f [] k = refl
  exists_in-update_rows q p f (r ∷ rows) k = ground (arith, k r, exists_in-update_rows q p f rows k)

  pub exists_in-append :
      (q : R → Bool) (rows : List R) (r : R)
      → exists_in q rows ≡ true
      → exists_in q (rows ++ r ∷ []) ≡ true
  unfolding exists_in
  exists_in-append q [] r h = cc
  exists_in-append q (x ∷ rows) r h = ground (arith, exists_in-append q rows r)

-- A column whose values do not repeat.
module _ {R K : Type 0} (key : R → K) where
  abbrev pub IsFreshKey : K → List R → Type 0
  IsFreshKey k rows = All (λ r. key r ≢ k) rows

  abbrev pub HasUniqueKeys : List R → Type 0
  HasUniqueKeys [] = Unit
  HasUniqueKeys (r ∷ rows) = IsFreshKey (key r) rows × HasUniqueKeys rows

  pub HasUniqueKeys-keep_if :
      (p : R → Bool) (rows : List R) → HasUniqueKeys rows → HasUniqueKeys (keep_if p rows)
  unfolding keep_if
  HasUniqueKeys-keep_if p [] h = tt
  HasUniqueKeys-keep_if p (r ∷ rows) h = elim (Bool-cases (p r)) [
    | inl e ↦ rw e (All-keep_if (λ x. key x ≢ key r) p rows h.0, HasUniqueKeys-keep_if p rows h.1)
    | inr e ↦ rw e (HasUniqueKeys-keep_if p rows h.1)
  ]

  pub HasUniqueKeys-append :
      (rows : List R) (r : R)
      → HasUniqueKeys rows
      → IsFreshKey (key r) rows
      → HasUniqueKeys (rows ++ r ∷ [])
  HasUniqueKeys-append [] r h n = (tt, tt)
  HasUniqueKeys-append (x ∷ rows) r h n = (
    All-append (λ y. key y ≢ key x) rows r h.0 (λ e. n.0 (sym e)),
    HasUniqueKeys-append rows r h.1 n.1,
  )

  pub IsFreshKey-of_exists_in :
      (q : R → Bool) (k : K)
      → ((r : R) → key r ≡ k → q r ≡ true)
      → (rows : List R) → exists_in q rows ≡ false
      → IsFreshKey k rows
  unfolding exists_in
  IsFreshKey-of_exists_in q k h [] n = tt
  IsFreshKey-of_exists_in q k h (r ∷ rows) n =
      (λ e. ground (arith, h r e), IsFreshKey-of_exists_in q k h rows (ground arith))

  pub IsFreshKey-update_rows :
      (p : R → Bool) (f : R → R) (k : K)
      → ((r : R) → p r ≡ true → key (f r) ≡ key r)
      → (rows : List R) → IsFreshKey k rows
      → IsFreshKey k (update_rows p f rows)
  IsFreshKey-update_rows p f k same rows h =
      All-update_rows (λ r. key r ≢ k) p f rows (λ r e n. rw (same r e) n) h

  pub HasUniqueKeys-update_rows :
      (p : R → Bool) (f : R → R)
      → ((r : R) → p r ≡ true → key (f r) ≡ key r)
      → (rows : List R) → HasUniqueKeys rows
      → HasUniqueKeys (update_rows p f rows)
  unfolding update_rows
  HasUniqueKeys-update_rows p f same [] u = tt
  HasUniqueKeys-update_rows p f same (r ∷ rows) u = elim (Bool-cases (p r)) [
    | inl e ↦ rw e (
      rw (same r e) (IsFreshKey-update_rows p f (key r) same rows u.0),
      HasUniqueKeys-update_rows p f same rows u.1,
    )
    | inr e ↦ rw e (
      IsFreshKey-update_rows p f (key r) same rows u.0,
      HasUniqueKeys-update_rows p f same rows u.1,
    )
  ]

-- What lies above every identifier in use is fresh.
pub IsFreshKey-of_max_key :
    {R : Type 0} (key : R → ℕ) (i : ℕ) (rows : List R)
    → max_key key rows < i
    → IsFreshKey key i rows
unfolding max_key
IsFreshKey-of_max_key key i [] h = tt
IsFreshKey-of_max_key key i (r ∷ rows) h =
    (λ e. omega arith, IsFreshKey-of_max_key key i rows (omega arith))

pub next_key-IsFreshKey :
    {R : Type 0} (key : R → ℕ) (rows : List R) → IsFreshKey key (next_key key rows) rows
next_key-IsFreshKey key rows = IsFreshKey-of_max_key key (next_key key rows) rows (omega arith)

-- An order loses no row.
In-past :
    {A : Type 0} (x v y : A) (xs ys : List A)
    → (In v (x ∷ xs) → In v ys)
    → In v (x ∷ y ∷ xs)
    → In v (y ∷ ys)
In-past x v y xs ys k (here e) = there (k (here e))
In-past x v y xs ys k (there (here e)) = here e
In-past x v y xs ys k (there (there i)) = there (k (there i))

In-insert_by :
    {A : Type 0} (after : A → A → Bool) (x v : A) (xs : List A)
    → In v (x ∷ xs)
    → In v (insert_by after x xs)
unfolding insert_by
In-insert_by after x v [] i = i
In-insert_by after x v (y ∷ xs) i = elim (Bool-cases (after x y)) [
  | inr e ↦ rw e i
  | inl e ↦ rw e (In-past x v y xs (insert_by after x xs) (In-insert_by after x v xs) i)
]

pub In-order_by :
    {A : Type 0} (after : A → A → Bool) (v : A) (xs : List A) → In v xs → In v (order_by after xs)
unfolding order_by
In-order_by after v [] i = i
In-order_by after v (x ∷ xs) (here e) = In-insert_by after x v _ (here e)
In-order_by after v (x ∷ xs) (there i) = In-insert_by after x v _ (there (In-order_by after v xs i))
