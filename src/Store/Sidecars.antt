-- ===== src/Store/Sidecars.antt =====
-- internal/store/store.go: the statements on the `sidecars` and `settings` tables, and the creation
-- of a job.
use muxprune.Base.{
  ℕ, Bool, not, ◌&&◌, Option, none, some, List, [], ◌∷◌, ◌++◌, Text, text_eq, Outcome, ok, err,
  ◌==◌, if◌then◌else◌, find_first, exists_in,
}
use muxprune.Store.Payload.{Payload}
use muxprune.Store.Jobs.{Job, JobType, NewJob, create_job}
use muxprune.Store.Table.{delete_where, update_rows, next_key}
use muxprune.Store.Tables.{
  Db, DbError, foreign_key_violation, Sidecar, is_file, is_sidecar, has_file,
}

abbrev pub sidecar_at : Text → Sidecar → Bool
sidecar_at p s = text_eq s.path p

abbrev pub overwrite_sidecar : ℕ → Sidecar → Sidecar → Sidecar
overwrite_sidecar file_id s old = record s { id = old.id; file_id = file_id }

-- `INSERT ... ON CONFLICT(path) DO UPDATE`: every column but the identifier.
unfoldable pub upsert_sidecar : ℕ → Sidecar → List Sidecar → List Sidecar
unfolding update_rows
upsert_sidecar file_id s rows =
    if exists_in (sidecar_at s.path) rows
    then update_rows (sidecar_at s.path) (overwrite_sidecar file_id s) rows
    else rows ++ record s { id = next_key Sidecar.id rows; file_id = file_id } ∷ []

unfoldable pub upsert_sidecars : ℕ → List Sidecar → List Sidecar → List Sidecar
upsert_sidecars file_id [] rows = rows
upsert_sidecars file_id (s ∷ ss) rows = upsert_sidecars file_id ss (upsert_sidecar file_id s rows)

-- One transaction: an insertion for a file that has no row fails, and brings back what was deleted.
unfoldable pub replace_sidecars : ℕ → List Sidecar → Db → Outcome DbError (Unit {0}) × Db
unfolding upsert_sidecars delete_where
replace_sidecars file_id ss db =
    let kept = delete_where (λ s. s.file_id == file_id) db.sidecars in
    let rows = upsert_sidecars file_id ss kept in
    elim ss [
      | [] ↦ (ok tt, record db { sidecars = kept })
      | _ ∷ _ ↦
          if has_file db.files file_id
          then (ok tt, record db { sidecars = rows })
          else (err foreign_key_violation, db)
    ]

unfoldable pub delete_sidecar : ℕ → Db → Db
unfolding delete_where
delete_sidecar i db = record db { sidecars = delete_where (is_sidecar i) db.sidecars }

unfoldable pub get_sidecar : ℕ → Db → Option Sidecar
get_sidecar i db = find_first (is_sidecar i) db.sidecars

-- `CreateJob` on the database: the size and mtime come from the row of the file, and a file that has
-- no row is refused.
abbrev pub new_job : JobType → ℕ → Text → Payload → Db → NewJob
new_job type file_id path payload db = record {
  type = type;
  file_id = file_id;
  file_path = path;
  payload = payload;
  media_size = elim (find_first (is_file file_id) db.files) [ none ↦ none | some f ↦ some f.size ];
  media_mtime = elim (find_first (is_file file_id) db.files) [
    | none ↦ none
    | some f ↦ some f.mtime
  ];
}

abbrev pub names_no_row : ℕ → Db → Bool
names_no_row file_id db = not (file_id == 0) && not (has_file db.files file_id)

unfoldable pub add_job : ℕ → JobType → ℕ → Text → Payload → Db → Outcome DbError Job × Db
unfolding create_job
add_job now type file_id path payload db =
    let (row, rows) = create_job now (new_job type file_id path payload db) db.jobs in
    if names_no_row file_id db
    then (err foreign_key_violation, db)
    else (ok row, record db { jobs = rows })

-- `settings`
abbrev pub is_setting : Text → Text × Text → Bool
is_setting key (k, v) = text_eq k key

unfoldable pub get_setting : Text → Text → Db → Text
get_setting key def db = elim (find_first (is_setting key) db.settings) [
  | none ↦ def
  | some (k, v) ↦ v
]

abbrev pub set_value : Text → Text × Text → Text × Text
set_value value (k, v) = (k, value)

unfoldable pub set_setting : Text → Text → Db → Db
unfolding update_rows
set_setting key value db = record db {
  settings =
      if exists_in (is_setting key) db.settings
      then update_rows (is_setting key) (set_value value) db.settings
      else db.settings ++ (key, value) ∷ [];
}
