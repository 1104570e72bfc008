-- ===== src/Store/Files/Touched.antt =====
-- The batches of `TouchFilesBulk` of internal/store/store.go, against one statement over all of the
-- identifiers.
use Prim.Native.Nat.{max}
use muxprune.Base.{
  ℕ, zero, suc, ◌-◌, ◌≤◌, ◌≡◌, refl, sym, ap, ◌∙◌, Bool, false, ◌||◌, List, [], ◌∷◌, arith, ◌==◌,
  length, take, drop, exists_in,
}
use muxprune.Store.Table.{update_rows}
use muxprune.Store.Tables.{Db, MediaFile}
use muxprune.Store.Files.{is_among, seen_at, batch_size, touch_batches, touch_files_bulk}

module _ {R : Type 0} (p q : R → Bool) (f : R → R) where
  -- Two updates that do the same to a row, and do it once.
  update_rows-update_rows :
      ((r : R) → f (f r) ≡ f r)
      → ((r : R) → q (f r) ≡ q r)
      → (rows : List R)
      → update_rows q f (update_rows p f rows) ≡ update_rows (λ r. p r || q r) f rows
  unfolding update_rows
  update_rows-update_rows once same [] = refl
  update_rows-update_rows once same (r ∷ rows) =
      ground (arith, once r, same r, update_rows-update_rows once same rows)

  update_rows-eq :
      ((r : R) → p r ≡ q r) → (rows : List R) → update_rows p f rows ≡ update_rows q f rows
  unfolding update_rows
  update_rows-eq h [] = refl
  update_rows-eq h (r ∷ rows) = ground (arith, h r, update_rows-eq h rows)

update_rows_none : {R : Type 0} (f : R → R) (rows : List R) → update_rows (λ r. false) f rows ≡ rows
unfolding update_rows
update_rows_none f [] = refl
update_rows_none f (r ∷ rows) = ap (λ rs. r ∷ rs) (update_rows_none f rows)

exists_in-take-drop :
    {A : Type 0} (p : A → Bool) (n : ℕ) (xs : List A)
    → (exists_in p (take n xs) || exists_in p (drop n xs)) ≡ exists_in p xs
unfolding exists_in
exists_in-take-drop p zero xs = refl
exists_in-take-drop p (suc n) [] = refl
exists_in-take-drop p (suc n) (x ∷ xs) = ground (arith, exists_in-take-drop p n xs)

length-drop-le : {A : Type 0} (n : ℕ) (xs : List A) → length (drop n xs) ≤ length xs - n
length-drop-le zero xs = omega arith
length-drop-le (suc n) [] = omega arith
length-drop-le (suc n) (x ∷ xs) = omega (arith, length-drop-le n xs)

seen_at-idempotent : (at : ℕ) (f : MediaFile) → seen_at at (seen_at at f) ≡ seen_at at f
seen_at-idempotent at f =
    let again : max (max f.scanned_at at) at ≡ max f.scanned_at at = omega arith in
    ap (λ n. record f { scanned_at = n }) again

touch_batches-eq :
    (fuel : ℕ) (is : List ℕ) (at : ℕ) (fs : List MediaFile)
    → length is ≤ fuel
    → touch_batches fuel is at fs ≡ update_rows (is_among is) (seen_at at) fs
unfolding touch_batches exists_in
touch_batches-eq fuel [] at fs h = sym (update_rows_none (seen_at at) fs)
touch_batches-eq zero (i ∷ is) at fs h = absurd (omega arith)
touch_batches-eq (suc fuel) (i ∷ is) at fs h =
    touch_batches-eq fuel (drop batch_size (i ∷ is)) at _
      (omega (arith, length-drop-le batch_size (i ∷ is)))
    ∙ update_rows-update_rows _ (is_among (drop batch_size (i ∷ is))) (seen_at at)
        (seen_at-idempotent at) (λ f. refl) fs
    ∙ update_rows-eq _ _ (seen_at at)
        (λ f. exists_in-take-drop (λ k. f.id == k) batch_size (i ∷ is)) fs

-- Batches of at most 500 identifiers, however many there are, update exactly the files that one
-- statement over all identifiers would, each of them once.
pub touch_files_bulk-update_rows :
    (is : List ℕ) (at : ℕ) (db : Db)
    → touch_files_bulk is at db
      ≡ record db { files = update_rows (is_among is) (seen_at at) db.files }
unfolding touch_files_bulk
touch_files_bulk-update_rows is at db =
    ap (λ (fs : List MediaFile). record db { files = fs })
      (touch_batches-eq (length is) is at db.files (omega arith))
