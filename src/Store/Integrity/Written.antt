-- ===== src/Store/Integrity/Written.antt =====
-- The consistency of the database of internal/store/store.go under insertions and updates.
use muxprune.Base.{
  ℕ, zero, suc, ◌≡◌, refl, Bool, true, false, none, List, [], ◌∷◌, ◌++◌, arith, ◌==◌, Bool-cases,
  Option-cases, inl, inr, exists_in, find_first, take, drop, length, sym, ap, Text, text_eq_iff,
  text_eq→eq,
}
use muxprune.Store.Payload.{Payload}
use muxprune.Store.Jobs.{JobType, create_job, nullable}
use muxprune.Store.Jobs.Rows.{HasUniqueIds-append, next_id-IsFresh}
use muxprune.Store.Table.{
  update_rows, next_key, HasUniqueKeys-update_rows, HasUniqueKeys-append, next_key-IsFreshKey,
  IsFreshKey-of_exists_in, exists_in-append, exists_in-update_rows, All-update_rows, All-append,
}
use muxprune.Store.Tables.{Db, MediaFile, is_file, has_file, has_library}
use muxprune.Store.Files.{
  at_path, overwrite_file, upsert_rows, scan_time, upsert_media_file, touched, touch_file, is_among,
  seen_at, batch_size, touch_batches, touch_files_bulk,
}
use muxprune.Store.Sidecars.{names_no_row, add_job, is_setting, set_value, set_setting}
use muxprune.Store.Integrity.{Consistent, InLibrary, FileExists, names_file}
use muxprune.Store.Integrity.Changed.{
  Consistent-with_files, Consistent-with_jobs, Consistent-with_settings,
}
use muxprune.Store.Integrity.Rows.{OfFile-kept, FileExists-kept}

-- An update of files that keeps identifiers, paths and owners.
module _ (p : MediaFile → Bool) (f : MediaFile → MediaFile) where
  update_files-Consistent :
      ((r : MediaFile) → p r ≡ true → (f r).id ≡ r.id)
      → ((r : MediaFile) → p r ≡ true → (f r).path ≡ r.path)
      → (db : Db)
      → ((r : MediaFile) → p r ≡ true → InLibrary db.libraries r → InLibrary db.libraries (f r))
      → Consistent db
      → Consistent (record db { files = update_rows p f db.files })
  update_files-Consistent ids paths db owned c =
      let keep : (i : ℕ)
          → has_file db.files i ≡ true
          → has_file (update_rows p f db.files) i ≡ true =
        λ i h.
          rw (exists_in-update_rows (is_file i) p f db.files (λ r e. ap (λ n. n == i) (ids r e)))
            h in
      Consistent-with_files (update_rows p f db.files) db
        (HasUniqueKeys-update_rows MediaFile.id p f ids db.files c.file_ids)
        (HasUniqueKeys-update_rows MediaFile.path p f paths db.files c.file_paths)
        (All-update_rows (InLibrary db.libraries) p f db.files owned c.file_libraries)
        (OfFile-kept db.files _ keep db.sidecars c.sidecar_files)
        (FileExists-kept db.files _ keep db.jobs c.job_files) c

append_file-Consistent :
    (f : MediaFile) (db : Db)
    → f.id ≡ next_key MediaFile.id db.files
    → exists_in (at_path f.path) db.files ≡ false
    → has_library db.libraries f.library_id ≡ true
    → Consistent db
    → Consistent (record db { files = db.files ++ f ∷ [] })
append_file-Consistent f db new free owned c =
    let keep : (i : ℕ) → has_file db.files i ≡ true → has_file (db.files ++ f ∷ []) i ≡ true =
      λ i h. exists_in-append (is_file i) db.files f h in
    Consistent-with_files _ db
      (HasUniqueKeys-append MediaFile.id db.files f c.file_ids
        (rw new (next_key-IsFreshKey MediaFile.id db.files)))
      (HasUniqueKeys-append MediaFile.path db.files f c.file_paths (
        IsFreshKey-of_exists_in MediaFile.path (at_path f.path) f.path
          (λ r same. (text_eq_iff r.path f.path).1 same) db.files free))
      (All-append (InLibrary db.libraries) db.files f c.file_libraries owned)
      (OfFile-kept db.files _ keep db.sidecars c.sidecar_files)
      (FileExists-kept db.files _ keep db.jobs c.job_files) c

find_first-exists_in :
    {R : Type 0} (p : R → Bool) (rows : List R)
    → find_first p rows ≡ none
    → exists_in p rows ≡ false
unfolding find_first exists_in
find_first-exists_in p [] h = refl
find_first-exists_in p (r ∷ rows) h = ground (arith, find_first-exists_in p rows)

upsert_rows-Consistent :
    (at : ℕ) (f : MediaFile) (db : Db)
    → has_library db.libraries f.library_id ≡ true
    → Consistent db
    → Consistent (record db { files = (upsert_rows at f db.files).1 })
upsert_rows-Consistent at f db owned c =
    elim (Option-cases (find_first (at_path f.path) db.files)) [
      | inl e ↦
          rw (e, upsert_rows)
            (append_file-Consistent
              (record f { id = next_key MediaFile.id db.files; scanned_at = at }) db refl
              (find_first-exists_in (at_path f.path) db.files e) owned c)
      | inr (old, e) ↦
          rw (e, upsert_rows)
            (update_files-Consistent (at_path f.path) (overwrite_file at f) (λ r t. refl)
              (λ r t. sym (text_eq→eq r.path f.path t)) db (λ r t h. owned) c)
    ]

pub upsert_media_file-Consistent :
    (now : ℕ) (f : MediaFile) (db : Db) → Consistent db → Consistent (upsert_media_file now f db).1
unfolding upsert_media_file
upsert_media_file-Consistent now f db c =
    elim (Bool-cases (has_library db.libraries f.library_id)) [
      | inl e ↦ rw e (upsert_rows-Consistent (scan_time now f.scanned_at) f db e c)
      | inr e ↦ rw e c
    ]

pub touch_file-Consistent :
    (i nlink : ℕ) (summary : Text) (at : ℕ) (db : Db)
    → Consistent db
    → Consistent (touch_file i nlink summary at db)
unfolding touch_file
touch_file-Consistent i nlink summary at db c =
    update_files-Consistent (is_file i) (touched nlink summary at) (λ r t. refl) (λ r t. refl) db
      (λ r t h. h) c

touch_batches-Consistent :
    (fuel : ℕ) (is : List ℕ) (at : ℕ) (db : Db)
    → Consistent db
    → Consistent (record db { files = touch_batches fuel is at db.files })
unfolding touch_batches
touch_batches-Consistent fuel [] at db c = c
touch_batches-Consistent zero (i ∷ is) at db c = c
touch_batches-Consistent (suc fuel) (i ∷ is) at db c =
    touch_batches-Consistent fuel (drop batch_size (i ∷ is)) at
      (record db {
        files = update_rows (is_among (take batch_size (i ∷ is))) (seen_at at) db.files;
      })
      (update_files-Consistent (is_among (take batch_size (i ∷ is))) (seen_at at) (λ r t. refl)
        (λ r t. refl) db (λ r t h. h) c)

pub touch_files_bulk-Consistent :
    (is : List ℕ) (at : ℕ) (db : Db) → Consistent db → Consistent (touch_files_bulk is at db)
unfolding touch_files_bulk
touch_files_bulk-Consistent is at db c = touch_batches-Consistent (length is) is at db c

pub set_setting-Consistent :
    (key value : Text) (db : Db) → Consistent db → Consistent (set_setting key value db)
unfolding set_setting
set_setting-Consistent key value db c = elim (Bool-cases (exists_in (is_setting key) db.settings)) [
  | inl e ↦ rw e (
      Consistent-with_settings _ db
        (HasUniqueKeys-update_rows _ (is_setting key) (set_value value) (λ r t. refl) db.settings
          c.setting_keys)
        c)
  | inr e ↦ rw e (
      Consistent-with_settings _ db
        (HasUniqueKeys-append _ db.settings (key, value) c.setting_keys
          (IsFreshKey-of_exists_in _ (is_setting key) key (λ r same. (text_eq_iff r.0 key).1 same)
            db.settings e))
        c)
]

names_file-nullable :
    (i : ℕ) (db : Db) → names_no_row i db ≡ false → names_file db.files (nullable i) ≡ true
names_file-nullable i db h = ground arith

pub add_job-Consistent :
    (now : ℕ) (type : JobType) (i : ℕ) (path : Text) (payload : Payload) (db : Db)
    → Consistent db
    → Consistent (add_job now type i path payload db).1
unfolding add_job create_job
add_job-Consistent now type i path payload db c = elim (Bool-cases (names_no_row i db)) [
  | inl e ↦ rw e c
  | inr e ↦ rw e (
      Consistent-with_jobs _ db (HasUniqueIds-append db.jobs _ c.job_ids (next_id-IsFresh db.jobs))
        (All-append (FileExists db.files) db.jobs _ c.job_files (names_file-nullable i db e)) c)
]
