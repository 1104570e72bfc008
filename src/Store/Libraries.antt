-- ===== src/Store/Libraries.antt =====
-- internal/store/store.go: the statements on the `libraries` table.
use muxprune.Base.{
  ℕ, Bool, true, false, not, ◌&&◌, ◌||◌, Option, none, some, List, [], ◌∷◌, ◌++◌, Text, text_eq,
  Outcome, ok, err, ltb, ◌==◌, if◌then◌else◌, count_if, find_first, exists_in,
}
use muxprune.Store.Table.{delete_where, update_rows, next_key, order_by}
use muxprune.Store.Tables.{
  Db, DbError, unique_violation, Library, is_library, has_library, delete_files,
}

-- `BINARY`, the collation of the text columns: the first byte that differs decides.
unfoldable pub text_before : Text → Text → Bool
text_before [] [] = false
text_before [] (y ∷ ys) = true
text_before (x ∷ xs) [] = false
text_before (x ∷ xs) (y ∷ ys) = ltb x y || x == y && text_before xs ys

abbrev pub has_path : Text → Library → Bool
has_path p l = text_eq l.path p

-- The columns that the statement names; the time of the last scan takes its default.
abbrev pub inserted_library : ℕ → Library → Library
inserted_library i l = record l { id = i; last_scan_finished_at = 0 }

-- The identifier of the new row, and the database.
unfoldable pub add_library : Library → Db → Outcome DbError ℕ × Db
add_library l db =
    let i = next_key Library.id db.libraries in
    if exists_in (has_path l.path) db.libraries
    then (err unique_violation, db)
    else (ok i, record db { libraries = db.libraries ++ inserted_library i l ∷ [] })

-- `(SELECT path FROM libraries WHERE id=?) != ?`: null, hence not true, without such a row.
abbrev pub path_changes : Library → List Library → Bool
path_changes l ls = elim (find_first (is_library l.id) ls) [
  | none ↦ false
  | some old ↦ not (text_eq old.path l.path)
]

abbrev pub set_library : Library → Library → Library
set_library l old = record l { id = old.id; last_scan_finished_at = old.last_scan_finished_at }

-- Another row has the new path, and the update has a row to change.
abbrev pub path_is_taken : Library → List Library → Bool
path_is_taken l ls =
    has_library ls l.id && exists_in (λ o. not (o.id == l.id) && has_path l.path o) ls

-- One transaction: what it deleted comes back when the update fails.
unfoldable pub update_library : Library → Db → Outcome DbError (Unit {0}) × Db
unfolding delete_files update_rows
update_library l db =
    let moved = path_changes l db.libraries in
    let kept = delete_files (λ f. f.library_id == l.id && moved) db in
    if path_is_taken l db.libraries then (err unique_violation, db) else (
      ok tt,
      record kept { libraries = update_rows (is_library l.id) (set_library l) kept.libraries },
    )

-- `ON DELETE CASCADE` takes the files of the library along, and their sidecars.
unfoldable pub delete_library : ℕ → Db → Db
unfolding delete_files delete_where
delete_library i db =
    let gone = has_library db.libraries i in
    let kept = delete_files (λ f. f.library_id == i && gone) db in
    record kept { libraries = delete_where (is_library i) kept.libraries }

abbrev pub set_scanned : ℕ → Library → Library
set_scanned ts l = record l { last_scan_finished_at = ts }

unfoldable pub mark_library_scanned : ℕ → ℕ → Db → Db
unfolding update_rows
mark_library_scanned i ts db = record db {
  libraries = update_rows (is_library i) (set_scanned ts) db.libraries;
}

unfoldable pub get_library : ℕ → Db → Option Library
get_library i db = find_first (is_library i) db.libraries

-- `ORDER BY name`
unfoldable pub list_libraries : Db → List Library
unfolding order_by text_before
list_libraries db = order_by (λ l m. text_before m.name l.name) db.libraries

unfoldable pub count_files_by_library : ℕ → Db → ℕ
count_files_by_library i db = count_if (λ f. f.library_id == i) db.files
