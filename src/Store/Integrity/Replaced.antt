-- ===== src/Store/Integrity/Replaced.antt =====
-- The consistency of the database of internal/store/store.go under the statements on sidecars.
use muxprune.Base.{
  ℕ, ◌≡◌, refl, Bool, true, List, [], ◌∷◌, ◌==◌, All, Bool-cases, inl, inr, exists_in, sym,
  text_eq_iff, text_eq→eq,
}
use muxprune.Store.Table.{
  delete_where, HasUniqueKeys, HasUniqueKeys-keep_if, HasUniqueKeys-update_rows,
  HasUniqueKeys-append, next_key-IsFreshKey, IsFreshKey-of_exists_in, All-keep_if, All-update_rows,
  All-append,
}
use muxprune.Store.Tables.{Db, MediaFile, Sidecar, is_sidecar, has_file}
use muxprune.Store.Sidecars.{
  sidecar_at, overwrite_sidecar, upsert_sidecar, upsert_sidecars, replace_sidecars, delete_sidecar,
}
use muxprune.Store.Integrity.{Consistent, OfFile}
use muxprune.Store.Integrity.Changed.{Consistent-with_sidecars}

-- The rows of sidecars, once some are written for a file that has a row.
SidecarsOk : List MediaFile → List Sidecar → Type 0
SidecarsOk fs rows =
    HasUniqueKeys Sidecar.id rows × HasUniqueKeys Sidecar.path rows × All (OfFile fs) rows

upsert_sidecar-SidecarsOk :
    (fs : List MediaFile) (i : ℕ) (s : Sidecar) (rows : List Sidecar)
    → has_file fs i ≡ true
    → SidecarsOk fs rows
    → SidecarsOk fs (upsert_sidecar i s rows)
unfolding upsert_sidecar SidecarsOk
upsert_sidecar-SidecarsOk fs i s rows owned (ids, paths, all) =
    elim (Bool-cases (exists_in (sidecar_at s.path) rows)) [
      | inl e ↦ rw e (
        HasUniqueKeys-update_rows Sidecar.id (sidecar_at s.path) (overwrite_sidecar i s)
            (λ r t. refl) rows ids,
        HasUniqueKeys-update_rows Sidecar.path (sidecar_at s.path) (overwrite_sidecar i s)
            (λ r t. sym (text_eq→eq r.path s.path t)) rows paths,
        All-update_rows (OfFile fs) (sidecar_at s.path) (overwrite_sidecar i s) rows
            (λ r t h. owned) all,
      )
      | inr e ↦ rw e (
        HasUniqueKeys-append Sidecar.id rows _ ids (next_key-IsFreshKey Sidecar.id rows),
        HasUniqueKeys-append Sidecar.path rows _ paths (
            IsFreshKey-of_exists_in Sidecar.path (sidecar_at s.path) s.path
              (λ r same. (text_eq_iff r.path s.path).1 same) rows e),
        All-append (OfFile fs) rows _ all owned,
      )
    ]

upsert_sidecars-SidecarsOk :
    (fs : List MediaFile) (i : ℕ) (ss rows : List Sidecar)
    → has_file fs i ≡ true
    → SidecarsOk fs rows
    → SidecarsOk fs (upsert_sidecars i ss rows)
unfolding upsert_sidecars
upsert_sidecars-SidecarsOk fs i [] rows owned h = h
upsert_sidecars-SidecarsOk fs i (s ∷ ss) rows owned h =
    upsert_sidecars-SidecarsOk fs i ss (upsert_sidecar i s rows) owned
      (upsert_sidecar-SidecarsOk fs i s rows owned h)

delete_sidecars-SidecarsOk :
    (p : Sidecar → Bool) (db : Db)
    → Consistent db
    → SidecarsOk db.files (delete_where p db.sidecars)
unfolding delete_where SidecarsOk
delete_sidecars-SidecarsOk p db c = (
  HasUniqueKeys-keep_if Sidecar.id _ db.sidecars c.sidecar_ids,
  HasUniqueKeys-keep_if Sidecar.path _ db.sidecars c.sidecar_paths,
  All-keep_if (OfFile db.files) _ db.sidecars c.sidecar_files,
)

sidecars-Consistent :
    (rows : List Sidecar) (db : Db)
    → SidecarsOk db.files rows
    → Consistent db
    → Consistent (record db { sidecars = rows })
unfolding SidecarsOk
sidecars-Consistent rows db (ids, paths, all) c = Consistent-with_sidecars rows db ids paths all c

pub replace_sidecars-Consistent :
    (i : ℕ) (ss : List Sidecar) (db : Db) → Consistent db → Consistent (replace_sidecars i ss db).1
unfolding replace_sidecars
replace_sidecars-Consistent i [] db c =
    sidecars-Consistent _ db (delete_sidecars-SidecarsOk (λ s. s.file_id == i) db c) c
replace_sidecars-Consistent i (s ∷ ss) db c = elim (Bool-cases (has_file db.files i)) [
  | inl e ↦ rw e (
      sidecars-Consistent _ db
        (upsert_sidecars-SidecarsOk db.files i (s ∷ ss) _ e
          (delete_sidecars-SidecarsOk (λ s. s.file_id == i) db c))
        c)
  | inr e ↦ rw e c
]

pub delete_sidecar-Consistent : (i : ℕ) (db : Db) → Consistent db → Consistent (delete_sidecar i db)
unfolding delete_sidecar
delete_sidecar-Consistent i db c =
    sidecars-Consistent _ db (delete_sidecars-SidecarsOk (is_sidecar i) db c) c
