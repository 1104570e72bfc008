-- ===== src/Store/Tables.antt =====
-- internal/store/store.go: the records of the tables, the database, and the referential actions of
-- its foreign keys. Every statement is one function on `Db`; one connection serves them in turn.
use muxprune.Base.{ℕ, Bool, false, ◌&&◌, none, some, List, Text, ℤ, ◌==◌, exists_in}
use muxprune.Store.Jobs.{Job, Jobs, update_where}
use muxprune.Store.Table.{delete_where}

pub record Library : Type 0 where
  pub id : ℕ
  pub name : Text
  pub path : Text
  pub kind : Text
  pub hardlink_policy : Text
  pub auto_scan_interval : ℤ
  pub watch_enabled : Bool
  pub last_scan_finished_at : ℕ

pub record Sidecar : Type 0 where
  pub id : ℕ
  pub file_id : ℕ
  pub path : Text
  pub name : Text
  pub lang : Text
  pub hi : Bool
  pub forced : Bool
  pub ext : Text
  pub size : ℕ

-- The row of a media file; its sidecars are rows of their own.
pub record MediaFile : Type 0 where
  pub id : ℕ
  pub library_id : ℕ
  pub path : Text
  pub size : ℕ
  pub mtime : ℤ
  pub nlink : ℕ
  pub kind : Text
  pub series : Text
  pub season : ℤ
  pub episode : Text
  pub title : Text
  pub video_codec : Text
  pub audio_summary : Text
  pub sub_summary : Text
  pub sidecar_summary : Text
  pub probe_json : Text
  pub scanned_at : ℕ

pub record Db : Type 0 where
  pub libraries : List Library
  pub files : List MediaFile
  pub sidecars : List Sidecar
  pub jobs : Jobs
  pub settings : List (Text × Text)

-- `UNIQUE constraint failed` and `FOREIGN KEY constraint failed`.
pub data DbError : Type 0 where
  unique_violation : DbError
  foreign_key_violation : DbError

abbrev pub is_library : ℕ → Library → Bool
is_library i l = l.id == i

abbrev pub is_file : ℕ → MediaFile → Bool
is_file i f = f.id == i

abbrev pub is_sidecar : ℕ → Sidecar → Bool
is_sidecar i s = s.id == i

abbrev pub has_library : List Library → ℕ → Bool
has_library ls i = exists_in (is_library i) ls

abbrev pub has_file : List MediaFile → ℕ → Bool
has_file fs i = exists_in (is_file i) fs

-- `REFERENCES media_files(id) ON DELETE CASCADE`, of the sidecars, and `ON DELETE SET NULL`, of the
-- jobs: what becomes of the rows that name a file deleted.
abbrev pub is_deleted : (MediaFile → Bool) → List MediaFile → ℕ → Bool
is_deleted p fs i = exists_in (λ f. is_file i f && p f) fs

abbrev pub names_deleted : (MediaFile → Bool) → List MediaFile → Job → Bool
names_deleted p fs j = elim j.file_id [ none ↦ false | some i ↦ is_deleted p fs i ]

abbrev pub clear_file : Job → Job
clear_file j = record j { file_id = none }

-- `DELETE FROM media_files WHERE p`
unfoldable pub delete_files : (MediaFile → Bool) → Db → Db
unfolding delete_where
delete_files p db = record db {
  files = delete_where p db.files;
  sidecars = delete_where (λ s. is_deleted p db.files s.file_id) db.sidecars;
  jobs = update_where (names_deleted p db.files) clear_file db.jobs;
}
