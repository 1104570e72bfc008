-- ===== src/Scan/LibraryScan.antt =====
-- `ScanLibrary` of internal/scan/scanner.go: the videos that the walk found, one by one, and then the
-- rows that are pruned, if any may be.
use muxprune.Base.{
  ℕ, Bool, false, not, ◌&&◌, Option, none, some, List, [], ◌∷◌, ◌++◌, map, Text, text, text_eq, pos,
  Outcome, ok, err, Float, ltb, ◌==◌, if◌then◌else◌, length, keep_if, dir, trim_suffix,
}
use muxprune.Store.Table.{order_by}
use muxprune.Store.Tables.{Db, Library}
use muxprune.Store.Libraries.{text_before, get_library, count_files_by_library}
use muxprune.Store.Files.{touch_files_bulk, prune_files_outside, count_stale_files, prune_files}
use muxprune.Scan.Walk.{
  FileStat, Tree, ScanError, not_accessible, Walked, nothing_walked, Context, ask, walk,
}
use muxprune.Scan.One.{ScanCalls, Scanned, scan_one}

-- `dirFiles[dir]`, `dirSizes[dir]`
abbrev pub names_in : Text → List (Text × Text) → List Text
names_in d names = map (λ dn. dn.1) (keep_if (λ dn. text_eq dn.0 d) names)

abbrev pub sizes_in : Text → List (Text × (Text × ℕ)) → List (Text × ℕ)
sizes_in d sizes = map (λ ds. ds.1) (keep_if (λ ds. text_eq ds.0 d) sizes)

-- A file whose record was found is touched later, whether its scan failed or had nothing to write.
abbrev pub is_pending : Scanned → Bool
is_pending r = elim r.error [ none ↦ r.unchanged | some e ↦ not (r.id == 0) ]

abbrev pub add_pending : Scanned → List ℕ → List ℕ
add_pending r ids = if is_pending r then ids ++ r.id ∷ [] else ids

module _ {D : Type 0} ⦃f : Float D⦄ (calls : ScanCalls D) where
  abbrev pub scan_video : Library → Walked → ℕ → Text × FileStat → Db → Scanned × Db
  scan_video lib w start (path, info) db =
      scan_one calls lib path info (names_in (dir path) w.names)
        (some (sizes_in (dir path) w.sizes)) start db

  -- The identifiers to touch, or the error of the context, and the database.
  unfoldable pub scan_videos :
      Library
      → Walked
      → ℕ
      → Context
      → List (Text × FileStat)
      → List ℕ
      → Db
      → Outcome ScanError (List ℕ) × Db
  unfolding scan_one dir
  scan_videos lib w start ctx [] ids db = (ok ids, db)
  scan_videos lib w start ctx (v ∷ vs) ids db = elim (ask ctx) [
    | err e ↦ (err e, db)
    | ok ctx' ↦
        (let (r, db') = scan_video lib w start v db in
          scan_videos lib w start ctx' vs (add_pending r ids) db')
  ]

  -- `pruneMaxRatio`
  unfoldable pub prune_max_ratio : D → D
  prune_max_ratio r =
      if Float.lt f (Float.of_int f (pos 0)) r && not (Float.lt f (Float.of_int f (pos 1)) r)
      then r
      else Float.decimal f 2 1

  -- Too many of the rows would go.
  unfoldable pub is_mass_prune : D → ℕ → ℕ → Bool
  unfolding prune_max_ratio
  is_mass_prune max_ratio total stale =
      ltb 0 total
      && (ltb 5 stale
          && Float.lt f (prune_max_ratio max_ratio)
              (Float.div f (Float.of_int f (pos stale)) (Float.of_int f (pos total))))

  -- The row of the library is still there, with the path that was walked.
  abbrev pub is_current : Library → Option Library → Bool
  is_current lib none = false
  is_current lib (some cur) = text_eq cur.path lib.path

  -- What is left to do, once the rows of the videos are written.
  unfoldable pub may_prune : D → Library → Walked → ℕ → Db → Bool
  unfolding count_files_by_library count_stale_files is_mass_prune
  may_prune max_ratio lib w start db =
      let total = count_files_by_library lib.id db in
      not (length w.videos == 0 && ltb 0 total)
      && (not w.walk_err_seen
          && not (is_mass_prune max_ratio total (count_stale_files lib.id start db)))

  unfoldable pub finish_scan : D → Library → Walked → ℕ → List ℕ → Db → Db
  unfolding get_library touch_files_bulk prune_files_outside prune_files may_prune
  finish_scan max_ratio lib w start ids db =
      let inside = (prune_files_outside lib.id lib.path (touch_files_bulk ids start db)).1 in
      if not (is_current lib (get_library lib.id db))
      then db
      else if may_prune max_ratio lib w start inside
      then (prune_files lib.id start inside).1
      else inside

  abbrev pub walk_root : Text → Text
  walk_root path = trim_suffix path (text "/") ++ text "/"

  abbrev pub videos_by_path : Walked → List (Text × FileStat)
  videos_by_path w = order_by (λ a b. text_before b.0 a.0) w.videos

  abbrev pub finish_videos :
      D → Library → Walked → ℕ → Outcome ScanError (List ℕ) × Db → Outcome ScanError (Unit {0}) × Db
  finish_videos max_ratio lib w start (err e, db) = (err e, db)
  finish_videos max_ratio lib w start (ok ids, db) =
      (ok tt, finish_scan max_ratio lib w start ids db)

  -- `root` is what the walk meets below the root, `none` where the root is no directory.
  unfoldable pub scan_library :
      D
      → (FileStat → Bool)
      → ℕ
      → Context
      → Option Tree
      → Library
      → Db
      → Outcome ScanError (Unit {0}) × Db
  unfolding walk scan_videos finish_scan trim_suffix order_by text_before
  scan_library max_ratio day_old start ctx none lib db = (err (not_accessible lib.path), db)
  scan_library max_ratio day_old start ctx (some root) lib db = elim (ask ctx) [
    | err e ↦ (err e, db)
    | ok ctx' ↦ elim (walk day_old (walk_root lib.path) root (nothing_walked, ctx')) [
      | err e ↦ (err e, db)
      | ok s ↦
          finish_videos max_ratio lib s.0 start
            (scan_videos lib s.0 start s.1 (videos_by_path s.0) [] db)
    ]
  ]
