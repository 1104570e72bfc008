-- ===== src/Store/Files.antt =====
-- internal/store/store.go: the statements on the `media_files` table that write, or that a scan
-- reads.
pub mod Touched
pub mod Lookup
use Prim.Native.Nat.{max}
use muxprune.Base.{
  ℕ, ◌+◌, ◌≡◌, Bool, true, false, not, ◌&&◌, ◌||◌, Option, none, some, List, [], ◌∷◌, ◌++◌, Text,
  text, text_eq, has_prefix, has_suffix, is_empty, ℤ, zero, suc, Outcome, ok, err, ltb, leb, ◌==◌,
  if◌then◌else◌, length, keep_if, count_if, find_first, exists_in, take, drop, reverse, slash,
  drop_slashes,
}
use muxprune.Store.Table.{update_rows, next_key, order_by}
use muxprune.Store.Tables.{
  Db, DbError, foreign_key_violation, Library, MediaFile, is_file, has_library, delete_files,
}

abbrev pub at_path : Text → MediaFile → Bool
at_path p f = text_eq f.path p

-- What `GetFileByPathMeta` returns; `none` stands for the zero values of a path without a row.
pub record FileMeta : Type 0 where
  pub id : ℕ
  pub size : ℕ
  pub mtime : ℤ
  pub nlink : ℕ
  pub sidecar_summary : Text
  pub has_probe : Bool

abbrev pub meta_of : MediaFile → FileMeta
meta_of f = record {
  id = f.id;
  size = f.size;
  mtime = f.mtime;
  nlink = f.nlink;
  sidecar_summary = f.sidecar_summary;
  has_probe = not (is_empty f.probe_json);
}

unfoldable pub get_file_by_path_meta : Text → Db → Option FileMeta
unfolding is_empty
get_file_by_path_meta p db = elim (find_first (at_path p) db.files) [
  | none ↦ none
  | some f ↦ some (meta_of f)
]

-- `ON CONFLICT(path) DO UPDATE`: the row keeps its identifier, and the later time of scanning.
abbrev pub overwrite_file : ℕ → MediaFile → MediaFile → MediaFile
overwrite_file at f old = record f { id = old.id; scanned_at = max old.scanned_at at }

abbrev pub upsert_rows : ℕ → MediaFile → List MediaFile → ℕ × List MediaFile
upsert_rows at f fs =
    let i = next_key MediaFile.id fs in
    elim (find_first (at_path f.path) fs) [
      | some old ↦ (old.id, update_rows (at_path f.path) (overwrite_file at f) fs)
      | none ↦ (i, fs ++ record f { id = i; scanned_at = at } ∷ [])
    ]

abbrev pub scan_time : ℕ → ℕ → ℕ
scan_time now at = if at == 0 then now else at

-- The identifier of the row, and the database; `now` is the clock of the call.
unfoldable pub upsert_media_file : ℕ → MediaFile → Db → Outcome DbError ℕ × Db
unfolding update_rows
upsert_media_file now f db =
    let (i, rows) = upsert_rows (scan_time now f.scanned_at) f db.files in
    if has_library db.libraries f.library_id
    then (ok i, record db { files = rows })
    else (err foreign_key_violation, db)

abbrev pub touched : ℕ → Text → ℕ → MediaFile → MediaFile
touched nlink summary at f = record f {
  scanned_at = max f.scanned_at at;
  nlink = nlink;
  sidecar_summary = summary;
}

unfoldable pub touch_file : ℕ → ℕ → Text → ℕ → Db → Db
unfolding update_rows
touch_file i nlink summary at db = record db {
  files = update_rows (is_file i) (touched nlink summary at) db.files;
}

abbrev pub is_among : List ℕ → MediaFile → Bool
is_among is f = exists_in (λ i. f.id == i) is

abbrev pub seen_at : ℕ → MediaFile → MediaFile
seen_at at f = record f { scanned_at = max f.scanned_at at }

abbrev pub batch_size : ℕ
batch_size = 500

-- One statement per batch; the fuel is the number of identifiers.
unfoldable pub touch_batches : ℕ → List ℕ → ℕ → List MediaFile → List MediaFile
unfolding update_rows
touch_batches fuel [] at fs = fs
touch_batches zero (i ∷ is) at fs = fs
touch_batches (suc fuel) (i ∷ is) at fs =
    touch_batches fuel (drop batch_size (i ∷ is)) at
      (update_rows (is_among (take batch_size (i ∷ is))) (seen_at at) fs)

unfoldable pub touch_files_bulk : List ℕ → ℕ → Db → Db
unfolding touch_batches
touch_files_bulk is at db = record db { files = touch_batches (length is) is at db.files }

-- Not seen since the scan began.
abbrev pub is_stale : ℕ → ℕ → MediaFile → Bool
is_stale lib start f = f.library_id == lib && ltb f.scanned_at start

-- The number of rows deleted, and the database.
unfoldable pub prune_files : ℕ → ℕ → Db → ℕ × Db
unfolding delete_files
prune_files lib start db =
    (count_if (is_stale lib start) db.files, delete_files (is_stale lib start) db)

abbrev pub with_slash : Text → Text
with_slash root = if has_suffix root (text "/") then root else root ++ text "/"

abbrev pub is_outside : ℕ → Text → MediaFile → Bool
is_outside lib root f =
    f.library_id == lib && (not (text_eq f.path root) && not (has_prefix f.path (with_slash root)))

unfoldable pub prune_files_outside : ℕ → Text → Db → ℕ × Db
unfolding delete_files
prune_files_outside lib root db =
    (count_if (is_outside lib root) db.files, delete_files (is_outside lib root) db)

unfoldable pub count_stale_files : ℕ → ℕ → Db → ℕ
count_stale_files lib start db = count_if (is_stale lib start) db.files

-- `rtrim(path, '/') || '/'` is a prefix, or the path is that of the library.
abbrev pub trim_slashes : Text → Text
trim_slashes p = reverse (drop_slashes (reverse p))

abbrev pub is_under : MediaFile → Library → Bool
is_under f l = text_eq f.path l.path || has_prefix f.path (trim_slashes l.path ++ text "/")

-- `ORDER BY length(l.path) DESC LIMIT 1`
abbrev shorter : Library → Library → Bool
shorter l m = ltb (length l.path) (length m.path)

abbrev first_of : List Library → Option Library
first_of [] = none
first_of (l ∷ ls) = some l

unfoldable pub hardlink_policy_proceeds : ℕ → Db → Bool
unfolding order_by drop_slashes
hardlink_policy_proceeds i db = elim (find_first (is_file i) db.files) [
  | none ↦ false
  | some f ↦ elim (first_of (order_by shorter (keep_if (is_under f) db.libraries))) [
    | none ↦ false
    | some l ↦ text_eq l.hardlink_policy (text "proceed")
  ]
]
