-- ===== src/Store/Integrity/Deleted.antt =====
-- The consistency of the database of internal/store/store.go under the statements on libraries, and
-- under deletions of files with their referential actions.
use mathlib.Core.Path.{subst}
use muxprune.Base.{
  ℕ, ◌≡◌, ◌≢◌, refl, Bool, true, false, not, ◌&&◌, List, [], ◌∷◌, arith, ◌==◌, Bool-cases, inl, inr,
  exists_in, sym, Text, ap, ==_iff, text_eq, text_eq_iff,
}
use muxprune.Store.Jobs.Rows.{HasUniqueIds-update_where}
use muxprune.Store.Table.{
  delete_where, update_rows, HasUniqueKeys, HasUniqueKeys-keep_if, HasUniqueKeys-update_rows,
  HasUniqueKeys-append, next_key-IsFreshKey, IsFreshKey-of_exists_in, exists_in-append, IsFreshKey,
  All-keep_if, All-update_rows, exists_in-update_rows,
}
use muxprune.Store.Tables.{
  Db, Library, MediaFile, Sidecar, is_library, has_library, delete_files, names_deleted, clear_file,
}
use muxprune.Store.Libraries.{
  set_scanned, add_library, mark_library_scanned, has_path, delete_library, update_library,
  set_library, path_is_taken,
}
use muxprune.Store.Integrity.{Consistent, InLibrary}
use muxprune.Store.Integrity.Changed.{Consistent-with_libraries}
use muxprune.Store.Integrity.Rows.{
  OfFile-delete_where, FileExists-delete_where, InLibrary-delete_where, InLibrary-kept,
}

pub delete_files-Consistent :
    (p : MediaFile → Bool) (db : Db) → Consistent db → Consistent (delete_files p db)
unfolding delete_files delete_where
delete_files-Consistent p db c = record {
  library_ids = c.library_ids;
  library_paths = c.library_paths;
  file_ids = HasUniqueKeys-keep_if MediaFile.id _ db.files c.file_ids;
  file_paths = HasUniqueKeys-keep_if MediaFile.path _ db.files c.file_paths;
  file_libraries = All-keep_if (InLibrary db.libraries) _ db.files c.file_libraries;
  sidecar_ids = HasUniqueKeys-keep_if Sidecar.id _ db.sidecars c.sidecar_ids;
  sidecar_paths = HasUniqueKeys-keep_if Sidecar.path _ db.sidecars c.sidecar_paths;
  sidecar_files = OfFile-delete_where p db.files db.sidecars c.sidecar_files;
  job_ids =
      HasUniqueIds-update_where (names_deleted p db.files) clear_file (λ j. refl) db.jobs c.job_ids;
  job_files = FileExists-delete_where p db.files db.jobs c.job_files;
  setting_keys = c.setting_keys;
}

pub delete_library-Consistent : (i : ℕ) (db : Db) → Consistent db → Consistent (delete_library i db)
unfolding delete_library delete_files delete_where
delete_library-Consistent i db c =
    Consistent-with_libraries (delete_where (is_library i) db.libraries) _
      (HasUniqueKeys-keep_if Library.id _ db.libraries c.library_ids)
      (HasUniqueKeys-keep_if Library.path _ db.libraries c.library_paths)
      (InLibrary-delete_where i db.libraries db.files c.file_libraries)
      (delete_files-Consistent _ db c)

-- The new path of the one row that changes belongs to no other row.
IsFreshKey-set_library :
    (l : Library) (p : Text) (ls : List Library)
    → l.path ≢ p
    → IsFreshKey Library.path p ls
    → IsFreshKey Library.path p (update_rows (is_library l.id) (set_library l) ls)
IsFreshKey-set_library l p ls ne h =
    All-update_rows (λ r. r.path ≢ p) (is_library l.id) (set_library l) ls (λ r e n. ne) h

abbrev other_at : Library → Library → Bool
other_at l o = not (o.id == l.id) && text_eq o.path l.path

IsFreshKey-others :
    (l : Library) (ls : List Library)
    → IsFreshKey Library.id l.id ls
    → exists_in (other_at l) ls ≡ false
    → IsFreshKey Library.path l.path (update_rows (is_library l.id) (set_library l) ls)
unfolding update_rows exists_in
IsFreshKey-others l [] ids free = tt
IsFreshKey-others l (o ∷ ls) ids free = elim (Bool-cases (o.id == l.id)) [
  | inl e ↦ absurd (ids.0 ((==_iff o.id l.id).0 e))
  | inr e ↦ rw e (
    λ same. ground (arith, (text_eq_iff o.path l.path).1 same),
    IsFreshKey-others l ls ids.1 (ground arith),
  )
]

HasUniquePaths-set_library :
    (l : Library) (ls : List Library)
    → HasUniqueKeys Library.id ls
    → HasUniqueKeys Library.path ls
    → exists_in (other_at l) ls ≡ false
    → HasUniqueKeys Library.path (update_rows (is_library l.id) (set_library l) ls)
unfolding update_rows exists_in
HasUniquePaths-set_library l [] ids paths free = tt
HasUniquePaths-set_library l (o ∷ ls) ids paths free = elim (Bool-cases (o.id == l.id)) [
  | inl e ↦ rw e (
    IsFreshKey-others l ls (subst (λ k. IsFreshKey Library.id k ls) ((==_iff o.id l.id).0 e) ids.0)
        (ground arith),
    HasUniquePaths-set_library l ls ids.1 paths.1 (ground arith),
  )
  | inr e ↦ rw e (
    IsFreshKey-set_library l o.path ls
        (λ same. ground (arith, (text_eq_iff o.path l.path).1 (sym same))) paths.0,
    HasUniquePaths-set_library l ls ids.1 paths.1 (ground arith),
  )
]

-- An update of a library that no row has changes nothing.
update_rows-absent :
    (l : Library) (ls : List Library)
    → has_library ls l.id ≡ false
    → update_rows (is_library l.id) (set_library l) ls ≡ ls
unfolding update_rows exists_in
update_rows-absent l [] n = refl
update_rows-absent l (o ∷ ls) n = ground (arith, update_rows-absent l ls)

HasUniquePaths-update :
    (l : Library) (ls : List Library)
    → HasUniqueKeys Library.id ls
    → HasUniqueKeys Library.path ls
    → path_is_taken l ls ≡ false
    → HasUniqueKeys Library.path (update_rows (is_library l.id) (set_library l) ls)
HasUniquePaths-update l ls ids paths free = elim (Bool-cases (has_library ls l.id)) [
  | inl e ↦ HasUniquePaths-set_library l ls ids paths (rw e at free)
  | inr e ↦ subst (HasUniqueKeys Library.path) (sym (update_rows-absent l ls e)) paths
]

has_library-update_rows :
    (k : ℕ) (f : Library → Library)
    → ((l : Library) → (f l).id ≡ l.id)
    → (ls : List Library) (i : ℕ) → has_library ls i ≡ true
    → has_library (update_rows (is_library k) f ls) i ≡ true
has_library-update_rows k f same ls i h =
    rw (exists_in-update_rows (is_library i) (is_library k) f ls (λ r e. ap (λ n. n == i) (same r)))
      h

pub update_library-Consistent :
    (l : Library) (db : Db) → Consistent db → Consistent (update_library l db).1
unfolding update_library delete_files
update_library-Consistent l db c = elim (Bool-cases (path_is_taken l db.libraries)) [
  | inl e ↦ rw e c
  | inr e ↦ rw e (
      let kept = delete_files-Consistent _ db c in
      Consistent-with_libraries _ _
        (HasUniqueKeys-update_rows Library.id _ _ (λ r e. refl) db.libraries c.library_ids)
        (HasUniquePaths-update l db.libraries c.library_ids c.library_paths e)
        (InLibrary-kept db.libraries _
          (has_library-update_rows l.id (set_library l) (λ r. refl) db.libraries) _
          kept.file_libraries)
        kept)
]

pub mark_library_scanned-Consistent :
    (i ts : ℕ) (db : Db) → Consistent db → Consistent (mark_library_scanned i ts db)
unfolding mark_library_scanned
mark_library_scanned-Consistent i ts db c =
    Consistent-with_libraries _ db
      (HasUniqueKeys-update_rows Library.id (is_library i) (set_scanned ts) (λ r e. refl)
        db.libraries c.library_ids)
      (HasUniqueKeys-update_rows Library.path (is_library i) (set_scanned ts) (λ r e. refl)
        db.libraries c.library_paths)
      (InLibrary-kept db.libraries _
        (has_library-update_rows i (set_scanned ts) (λ r. refl) db.libraries) db.files
        c.file_libraries)
      c

pub add_library-Consistent :
    (l : Library) (db : Db) → Consistent db → Consistent (add_library l db).1
unfolding add_library
add_library-Consistent l db c = elim (Bool-cases (exists_in (has_path l.path) db.libraries)) [
  | inl e ↦ rw e c
  | inr e ↦ rw e (
      Consistent-with_libraries _ db
        (HasUniqueKeys-append Library.id db.libraries _ c.library_ids
          (next_key-IsFreshKey Library.id db.libraries))
        (HasUniqueKeys-append Library.path db.libraries _ c.library_paths (
          IsFreshKey-of_exists_in Library.path (has_path l.path) l.path
            (λ r same. (text_eq_iff r.path l.path).1 same) db.libraries e))
        (InLibrary-kept db.libraries _ (λ i. exists_in-append (is_library i) db.libraries _)
          db.files c.file_libraries)
        c)
]
