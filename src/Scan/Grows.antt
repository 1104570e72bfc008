-- ===== src/Scan/Grows.antt =====
-- What the statements of the scan of one file do to the records that are there.
use muxprune.Base.{
  ℕ, ◌≤◌, ◌≡◌, refl, sym, ap, ◌∙◌, Bool, true, false, ◌&&◌, Option, none, some, List, [], ◌∷◌, ◌++◌,
  arith, Text, text_eq, text_eq→eq, Float, Outcome, ok, err, ◌==◌, if◌then◌else◌, find_first,
  keep_if, Bool-cases, Option-cases, inl, inr,
}
use muxprune.Store.Table.{update_rows, delete_where}
use muxprune.Store.Tables.{Db, Library, MediaFile, Sidecar, is_file, has_library, DbError}
use muxprune.Store.Files.{
  FileMeta, at_path, get_file_by_path_meta, overwrite_file, upsert_rows, upsert_media_file,
  scan_time, touched, touch_file, touch_files_bulk, is_among, seen_at,
}
use muxprune.Store.Files.Touched.{touch_files_bulk-update_rows}
use muxprune.Store.Files.Lookup.{map_file, find_first-append}
use muxprune.Store.Sidecars.{replace_sidecars}
use muxprune.Probe.{Result}
use muxprune.Probe.Parse.{ProbeError}
use muxprune.Probe.Run.{probe}
use muxprune.Scan.Walk.{FileStat}
use muxprune.Scan.One.{
  store_json, store_result, Sizes, ScanCalls, with_row, with_sidecars, with_sidecars_result,
  refresh, probe_again, scan_with, scan_one, is_cached,
}

-- The row of the path is still there, no older than it was.
pub record Later (row : MediaFile) (p : Text) (fs : List MediaFile) : Type 0 where
  pub now_row : MediaFile
  pub found : find_first (at_path p) fs ≡ some now_row
  pub same_id : now_row.id ≡ row.id
  pub no_older : row.scanned_at ≤ now_row.scanned_at

abbrev pub Grows : List MediaFile → List MediaFile → Type 0
Grows fs gs = (p : Text) (row : MediaFile) → find_first (at_path p) fs ≡ some row → Later row p gs

pub Grows-refl : (fs : List MediaFile) → Grows fs fs
Grows-refl fs p row h = record { now_row = row; found = h; same_id = refl; no_older = omega arith }

pub Grows-trans : (fs gs hs : List MediaFile) → Grows fs gs → Grows gs hs → Grows fs hs
Grows-trans fs gs hs a b p row h =
    let first = a p row h in
    let second = b p first.now_row first.found in
    record {
      now_row = second.now_row;
      found = second.found;
      same_id = second.same_id ∙ first.same_id;
      no_older = omega (arith, first.no_older, second.no_older);
    }

-- The first row that passes, changed, or one of the rest.
first_or :
    (b : Bool) (f : MediaFile → MediaFile) (x y row : MediaFile) (o u : Option MediaFile)
    → (if b then some x else o) ≡ some row
    → y ≡ f x
    → (o ≡ some row → u ≡ some (f row))
    → (if b then some y else u) ≡ some (f row)
first_or true f x y row o u h e k = rw e (ap (map_file f) h)
first_or false f x y row o u h e k = k h

-- An update of rows that keeps their paths and identifiers, and makes none older.
module _ (q : MediaFile → Bool) (f : MediaFile → MediaFile)
    (paths : (r : MediaFile) → q r ≡ true → (f r).path ≡ r.path) where
  same_path : (r : MediaFile) → (if q r then f r else r).path ≡ r.path
  same_path r = elim (Bool-cases (q r)) [ inl e ↦ rw e (paths r e) | inr e ↦ rw e refl ]

  pub find_first-update_rows :
      (p : Text) (fs : List MediaFile) (row : MediaFile)
      → find_first (at_path p) fs ≡ some row
      → find_first (at_path p) (update_rows q f fs) ≡ some (if q row then f row else row)
  unfolding find_first update_rows
  find_first-update_rows p [] row h = cc
  find_first-update_rows p (r ∷ fs) row h = rw (same_path r) (
      first_or (text_eq r.path p) (λ x. if q x then f x else x) r (if q r then f r else r) row
        (find_first (at_path p) fs) (find_first (at_path p) (update_rows q f fs)) h refl
        (find_first-update_rows p fs row))

  pub update_rows-Grows :
      ((r : MediaFile) → (f r).id ≡ r.id)
      → ((r : MediaFile) → q r ≡ true → r.scanned_at ≤ (f r).scanned_at)
      → (fs : List MediaFile) → Grows fs (update_rows q f fs)
  update_rows-Grows ids older fs p row h = record {
    now_row = if q row then f row else row;
    found = find_first-update_rows p fs row h;
    same_id = elim (Bool-cases (q row)) [ inl e ↦ rw e (ids row) | inr e ↦ rw e refl ];
    no_older = elim (Bool-cases (q row)) [
      | inl e ↦ rw e (older row e)
      | inr e ↦ rw e (omega arith)
    ];
  }

append-Grows : (fs : List MediaFile) (f : MediaFile) → Grows fs (fs ++ f ∷ [])
append-Grows fs f p row h = record {
  now_row = row;
  found = rw (find_first-append (at_path p) fs f) (rw h refl);
  same_id = refl;
  no_older = omega arith;
}

overwrite-Grows :
    (at : ℕ) (f : MediaFile) (fs : List MediaFile)
    → Grows fs (update_rows (at_path f.path) (overwrite_file at f) fs)
overwrite-Grows at f fs =
    update_rows-Grows (at_path f.path) (overwrite_file at f)
      (λ r e. sym (text_eq→eq r.path f.path e)) (λ r. refl) (λ r e. omega arith) fs

upsert_rows-Grows :
    (at : ℕ) (f : MediaFile) (fs : List MediaFile) → Grows fs (upsert_rows at f fs).1
upsert_rows-Grows at f fs = elim (Option-cases (find_first (at_path f.path) fs)) [
  | inl e ↦ rw (e, upsert_rows) (append-Grows fs _)
  | inr (old, e) ↦ rw (e, upsert_rows) (overwrite-Grows at f fs)
]

upsert_media_file-Grows :
    (now : ℕ) (f : MediaFile) (db : Db) → Grows db.files (upsert_media_file now f db).1.files
unfolding upsert_media_file
upsert_media_file-Grows now f db = elim (Bool-cases (has_library db.libraries f.library_id)) [
  | inl e ↦ rw e (upsert_rows-Grows (scan_time now f.scanned_at) f db.files)
  | inr e ↦ rw e (Grows-refl db.files)
]

touch_file-Grows :
    (i nlink : ℕ) (summary : Text) (at : ℕ) (db : Db)
    → Grows db.files (touch_file i nlink summary at db).files
unfolding touch_file
touch_file-Grows i nlink summary at db =
    update_rows-Grows (is_file i) (touched nlink summary at) (λ r e. refl) (λ r. refl)
      (λ r e. omega arith) db.files

pub touch_files_bulk-Grows :
    (is : List ℕ) (at : ℕ) (db : Db) → Grows db.files (touch_files_bulk is at db).files
touch_files_bulk-Grows is at db = rw (touch_files_bulk-update_rows is at db) (
    update_rows-Grows (is_among is) (seen_at at) (λ r e. refl) (λ r. refl) (λ r e. omega arith)
      db.files)

-- The subtitles are no rows of files.
pub replace_sidecars-files :
    (i : ℕ) (ss : List Sidecar) (db : Db) → (replace_sidecars i ss db).1.files ≡ db.files
unfolding replace_sidecars
replace_sidecars-files i [] db = refl
replace_sidecars-files i (s ∷ ss) db = ground arith

with_sidecars_result-files :
    (i : ℕ) (o : Outcome DbError (Unit {0}) × Db) → (with_sidecars_result i o).1.files ≡ o.1.files
with_sidecars_result-files i (ok u, db) = refl
with_sidecars_result-files i (err e, db) = refl

pub with_sidecars-files :
    (i : ℕ) (ss : List Sidecar) (db : Db) → (with_sidecars i ss db).1.files ≡ db.files
with_sidecars-files i ss db =
    with_sidecars_result-files i (replace_sidecars i ss db) ∙ replace_sidecars-files i ss db

abbrev test_of : (MediaFile → Bool) → Option MediaFile → Bool
test_of q none = true
test_of q (some f) = q f

-- A row that a deletion spares is looked up as before.
pub find_first-delete_where :
    (p q : MediaFile → Bool) (fs : List MediaFile) (row : MediaFile)
    → find_first p fs ≡ some row
    → q row ≡ false
    → find_first p (delete_where q fs) ≡ some row
unfolding find_first delete_where keep_if
find_first-delete_where p q [] row h n = cc
find_first-delete_where p q (f ∷ fs) row h n = elim (Bool-cases (p f)) [
  | inl e ↦
      (let spared : q f ≡ q row = ap (test_of q) (rw e at h) in rw (spared ∙ n) (rw e (rw e at h)))
  | inr e ↦ ground (arith, e, find_first-delete_where p q fs row)
]

module _ {D : Type 0} ⦃f : Float D⦄ (calls : ScanCalls D) where
  with_row-files :
      (rows : List Sidecar) (old : ℕ) (o : Outcome DbError ℕ × Db)
      → (with_row calls rows old o).1.files ≡ o.1.files
  with_row-files rows old (ok i, db) = with_sidecars-files i rows db
  with_row-files rows old (err e, db) = refl

  store_json-Grows :
      (lib : Library) (path : Text) (info : FileStat) (old : ℕ) (summary : Text)
      (rows : List Sidecar) (stamp : ℕ) (res : Result D) (json : Option Text) (db : Db)
      → Grows db.files (store_json calls lib path info old summary rows stamp res json db).1.files
  store_json-Grows lib path info old summary rows stamp res none db = Grows-refl db.files
  store_json-Grows lib path info old summary rows stamp res (some json) db =
      rw (with_row-files rows old _) (upsert_media_file-Grows calls.now _ db)

  store_result-Grows :
      (lib : Library) (path : Text) (info : FileStat) (old : ℕ) (summary : Text)
      (rows : List Sidecar) (stamp : ℕ) (res : Outcome ProbeError (Result D)) (db : Db)
      → Grows db.files (store_result calls lib path info old summary rows stamp res db).1.files
  store_result-Grows lib path info old summary rows stamp (err e) db = Grows-refl db.files
  store_result-Grows lib path info old summary rows stamp (ok res) db =
      store_json-Grows lib path info old summary rows stamp res (calls.marshal res) db

  probe_again-Grows :
      (lib : Library) (path : Text) (info : FileStat) (old : ℕ) (summary : Text)
      (rows : List Sidecar) (stamp : ℕ) (db : Db)
      → Grows db.files (probe_again calls lib path info old summary rows stamp db).1.files
  unfolding probe_again
  probe_again-Grows lib path info old summary rows stamp db =
      store_result-Grows lib path info old summary rows stamp (probe calls.prober path) db

  refresh-Grows :
      (info : FileStat) (old : FileMeta) (summary : Text) (rows : List Sidecar) (stamp : ℕ)
      (db : Db)
      → Grows db.files (refresh info old summary rows stamp db).1.files
  unfolding refresh
  refresh-Grows info old summary rows stamp db =
      elim (Bool-cases (old.nlink == info.nlink && text_eq old.sidecar_summary summary)) [
        | inl e ↦ rw e (Grows-refl db.files)
        | inr e ↦ rw e (
            rw (with_sidecars-files old.id rows (touch_file old.id info.nlink summary stamp db))
              (touch_file-Grows old.id info.nlink summary stamp db))
      ]

  scan_with-Grows :
      (lib : Library) (path : Text) (info : FileStat) (summary : Text) (rows : List Sidecar)
      (stamp : ℕ) (old : Option FileMeta) (db : Db)
      → Grows db.files (scan_with calls lib path info summary rows stamp old db).1.files
  scan_with-Grows lib path info summary rows stamp none db =
      probe_again-Grows lib path info 0 summary rows stamp db
  scan_with-Grows lib path info summary rows stamp (some old) db =
      elim (Bool-cases (is_cached info old)) [
        | inl e ↦ rw e (refresh-Grows info old summary rows stamp db)
        | inr e ↦ rw e (probe_again-Grows lib path info old.id summary rows stamp db)
      ]

  pub scan_one-Grows :
      (lib : Library) (path : Text) (info : FileStat) (siblings : List Text) (sizes : Sizes)
      (stamp : ℕ) (db : Db)
      → Grows db.files (scan_one calls lib path info siblings sizes stamp db).1.files
  unfolding scan_one
  scan_one-Grows lib path info siblings sizes stamp db =
      scan_with-Grows lib path _ _ _ stamp (get_file_by_path_meta path db) db
