-- ===== src/Store/Files/Lookup.antt =====
-- What a look-up of internal/store/store.go finds after a statement that writes.
use Prim.Native.Nat.{max}
use muxprune.Base.{
  ℕ, ◌≡◌, ◌∙◌, refl, ap, Bool, true, false, Option, none, some, List, [], ◌∷◌, ◌++◌, arith, Text,
  text_eq, text_eq→eq, text_eq_refl, ok, if◌then◌else◌, Bool-cases, Option-cases, find_first,
  exists_in, inl, inr,
}
use muxprune.Store.Table.{update_rows, next_key}
use muxprune.Store.Tables.{Db, MediaFile, has_library}
use muxprune.Store.Files.{
  at_path, meta_of, get_file_by_path_meta, overwrite_file, upsert_rows, upsert_media_file,
  scan_time,
}
use muxprune.Store.Sidecars.{is_setting, set_value, get_setting, set_setting}

abbrev value_in : Text → Text → List (Text × Text) → Text
value_in k def rows = elim (find_first (is_setting k) rows) [ none ↦ def | some (k', v) ↦ v ]

-- Two keys that a third equals are equal.
text_eq_join : (a b c : Text) → text_eq a b ≡ true → text_eq a c ≡ text_eq b c
text_eq_join a b c h = ap (λ t. text_eq t c) (text_eq→eq a b h)

text_eq_sym : (a b : Text) → text_eq a b ≡ text_eq b a
unfolding text_eq
text_eq_sym [] [] = refl
text_eq_sym [] (y ∷ ys) = refl
text_eq_sym (x ∷ xs) [] = refl
text_eq_sym (x ∷ xs) (y ∷ ys) = ground (arith, text_eq_sym xs ys)

module _ (key k value def : Text) where
  value_in-update_rows :
      (rows : List (Text × Text))
      → exists_in (is_setting key) rows ≡ true
      → text_eq key k ≡ true
      → value_in k def (update_rows (is_setting key) (set_value value) rows) ≡ value
  unfolding find_first exists_in update_rows
  value_in-update_rows [] h e = cc
  value_in-update_rows ((a, v) ∷ rows) h e = ground (
    arith,
    text_eq_join a key k,
    text_eq_join key k a,
    text_eq_sym a k,
    text_eq_sym a key,
    value_in-update_rows rows,
  )

  value_in-others :
      (rows : List (Text × Text))
      → text_eq key k ≡ false
      → value_in k def (update_rows (is_setting key) (set_value value) rows) ≡ value_in k def rows
  unfolding find_first update_rows
  value_in-others [] e = refl
  value_in-others ((a, v) ∷ rows) e = ground (arith, text_eq_join a key k, value_in-others rows)

  value_in-append :
      (rows : List (Text × Text))
      → exists_in (is_setting key) rows ≡ false
      → value_in k def (rows ++ (key, value) ∷ [])
        ≡ (if text_eq key k then value else value_in k def rows)
  unfolding find_first exists_in
  value_in-append [] h = ground arith
  value_in-append ((a, v) ∷ rows) h =
      ground (arith, text_eq_join key k a, text_eq_sym a k, text_eq_sym a key, value_in-append rows)

-- A value that is set is the one that is read back, whatever default is given, and every other
-- setting reads as before.
pub get_setting-set_setting :
    (key k value def : Text) (db : Db)
    → get_setting k def (set_setting key value db)
      ≡ (if text_eq key k then value else get_setting k def db)
unfolding get_setting set_setting
get_setting-set_setting key k value def db =
    elim (Bool-cases (exists_in (is_setting key) db.settings)) [
      | inr e ↦ rw e (value_in-append key k value def db.settings e)
      | inl e ↦ elim (Bool-cases (text_eq key k)) [
        | inl t ↦ rw (e, t) (value_in-update_rows key k value def db.settings e t)
        | inr t ↦ rw (e, t) (value_in-others key k value def db.settings t)
      ]
    ]

abbrev pub map_file : (MediaFile → MediaFile) → Option MediaFile → Option MediaFile
map_file g none = none
map_file g (some f) = some (g f)

module _ (at : ℕ) (f : MediaFile) where
  pub find_first-overwritten :
      (fs : List MediaFile)
      → find_first (at_path f.path) (update_rows (at_path f.path) (overwrite_file at f) fs)
        ≡ map_file (overwrite_file at f) (find_first (at_path f.path) fs)
  unfolding find_first update_rows
  find_first-overwritten [] = refl
  find_first-overwritten (g ∷ fs) = ground (arith, text_eq_refl f.path, find_first-overwritten fs)

  pub find_first-others :
      (p : Text) (fs : List MediaFile)
      → text_eq f.path p ≡ false
      → find_first (at_path p) (update_rows (at_path f.path) (overwrite_file at f) fs)
        ≡ find_first (at_path p) fs
  unfolding find_first update_rows
  find_first-others p [] n = refl
  find_first-others p (g ∷ fs) n =
      ground (arith, text_eq_join g.path f.path p, find_first-others p fs n)

pub find_first-append :
    {R : Type 0} (p : R → Bool) (rows : List R) (r : R)
    → find_first p (rows ++ r ∷ [])
      ≡ elim (find_first p rows) [ none ↦ if p r then some r else none | some x ↦ some x ]
unfolding find_first
find_first-append p [] r = ground arith
find_first-append p (x ∷ rows) r = ground (arith, find_first-append p rows r)

-- When a file was scanned last, after a scan at `at` of the row there was, if there was one.
abbrev last_scan : ℕ → Option MediaFile → ℕ
last_scan at none = at
last_scan at (some old) = max old.scanned_at at

-- What `upsert_media_file` promises when the library has a row: all columns of the row of the path,
-- what the look-ups of a scan read, and the identifier.
pub record IsUpserted (now : ℕ) (f : MediaFile) (db : Db) (i : ℕ) (next : Db) : Type 0 where
  pub result : upsert_media_file now f db ≡ (ok i, next)
  pub written : get_file_by_path_meta f.path next ≡ some (meta_of (record f { id = i }))
  pub row : MediaFile
  pub found : find_first (at_path f.path) next.files ≡ some row
  pub columns : row ≡ record f { id = i; scanned_at = row.scanned_at }
  pub scanned :
      row.scanned_at ≡ last_scan (scan_time now f.scanned_at) (find_first (at_path f.path) db.files)
  pub other_rows :
      (p : Text)
      → text_eq f.path p ≡ false
      → find_first (at_path p) next.files ≡ find_first (at_path p) db.files
  pub others :
      (p : Text)
      → text_eq f.path p ≡ false
      → get_file_by_path_meta p next ≡ get_file_by_path_meta p db
  pub identifier : (old : MediaFile) → find_first (at_path f.path) db.files ≡ some old → i ≡ old.id

-- With the library's row there, the row of the path holds every column of the file that was given,
-- but the identifier, which is the one that the path had before if it had a row, and the time of
-- the scan, which is the later of the two or, where none is given, the clock; a scan reads what was
-- written, and every other path is looked up as before.
pub upsert_media_file-IsUpserted :
    (now : ℕ) (f : MediaFile) (db : Db)
    → has_library db.libraries f.library_id ≡ true
    → (i : ℕ) × ((next : Db) × IsUpserted now f db i next)
unfolding upsert_media_file get_file_by_path_meta
upsert_media_file-IsUpserted now f db owned =
    let at = scan_time now f.scanned_at in
    elim (Option-cases (find_first (at_path f.path) db.files)) [
      | inr (old, e) ↦ (
        old.id,
        (
          record db { files = update_rows (at_path f.path) (overwrite_file at f) db.files },
          record {
            result = rw (owned, upsert_rows) (rw (e, upsert_rows) refl);
            written = ground (arith, e, find_first-overwritten at f db.files);
            row = overwrite_file at f old;
            found = find_first-overwritten at f db.files ∙ rw e refl;
            columns = refl;
            scanned = rw e refl;
            other_rows = λ p n. find_first-others at f p db.files n;
            others = λ p n. ground (arith, find_first-others at f p db.files n);
            identifier = λ o h. ground (arith, h, e);
          },
        ),
      )
      | inl e ↦
          (let row = record f { id = next_key MediaFile.id db.files; scanned_at = at } in
            (
              next_key MediaFile.id db.files,
              (
                record db { files = db.files ++ row ∷ [] },
                record {
                  result = rw (owned, upsert_rows) (rw (e, upsert_rows) refl);
                  written = ground (
                    arith,
                    e,
                    text_eq_refl f.path,
                    find_first-append (at_path f.path) db.files row,
                  );
                  row = row;
                  found =
                      find_first-append (at_path f.path) db.files row
                      ∙ rw (e, text_eq_refl f.path) refl;
                  columns = refl;
                  scanned = rw e refl;
                  other_rows = λ p n. ground (arith, n, find_first-append (at_path p) db.files row);
                  others = λ p n. ground (arith, n, find_first-append (at_path p) db.files row);
                  identifier = λ o h. ground (arith, h, e);
                },
              ),
            ))
    ]
