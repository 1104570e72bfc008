-- ===== src/Store/Integrity.antt =====
-- The integrity of the database of internal/store/store.go: what the keys, the `UNIQUE` columns and
-- the foreign keys of the schema promise together.
pub mod Rows
pub mod Changed
pub mod Deleted
pub mod Written
pub mod Replaced
pub mod Steps
use muxprune.Base.{ℕ, ◌≡◌, Bool, true, Option, none, some, List, Text, All}
use muxprune.Store.Jobs.{Job, Jobs}
use muxprune.Store.Jobs.Rows.{HasUniqueIds}
use muxprune.Store.Table.{HasUniqueKeys}
use muxprune.Store.Tables.{Db, Library, MediaFile, Sidecar, has_library, has_file}

abbrev pub InLibrary : List Library → MediaFile → Type 0
InLibrary ls f = has_library ls f.library_id ≡ true

abbrev pub OfFile : List MediaFile → Sidecar → Type 0
OfFile fs s = has_file fs s.file_id ≡ true

-- A job names no file, or one that has a row.
abbrev pub names_file : List MediaFile → Option ℕ → Bool
names_file fs none = true
names_file fs (some i) = has_file fs i

abbrev pub FileExists : List MediaFile → Job → Type 0
FileExists fs j = names_file fs j.file_id ≡ true

pub record Consistent (db : Db) : Type 0 where
  pub library_ids : HasUniqueKeys Library.id db.libraries
  pub library_paths : HasUniqueKeys Library.path db.libraries
  pub file_ids : HasUniqueKeys MediaFile.id db.files
  pub file_paths : HasUniqueKeys MediaFile.path db.files
  pub file_libraries : All (InLibrary db.libraries) db.files
  pub sidecar_ids : HasUniqueKeys Sidecar.id db.sidecars
  pub sidecar_paths : HasUniqueKeys Sidecar.path db.sidecars
  pub sidecar_files : All (OfFile db.files) db.sidecars
  pub job_ids : HasUniqueIds db.jobs
  pub job_files : All (FileExists db.files) db.jobs
  pub setting_keys : HasUniqueKeys (λ (kv : Text × Text). kv.0) db.settings
