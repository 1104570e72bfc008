-- ===== src/Scan/Pruned.antt =====
-- What the end of a scan of a library does to the records, and what the whole scan leaves of them.
use muxprune.Base.{
  ℕ, ◌≤◌, ◌≡◌, ◌≢◌, refl, sym, ◌∙◌, Bool, true, false, some, List, [], arith, Text, text_eq→eq,
  has_prefix, Float, Outcome, ok, err, ◌==◌, if◌then◌else◌, find_first, In, Bool-cases, inl, inr,
}
use muxprune.Store.Table.{In-order_by}
use muxprune.Store.Tables.{Db, Library, MediaFile, delete_files}
use muxprune.Store.Libraries.{get_library}
use muxprune.Store.Files.{
  at_path, touch_files_bulk, is_among, seen_at, is_stale, is_outside, with_slash, prune_files,
  prune_files_outside,
}
use muxprune.Store.Files.Touched.{touch_files_bulk-update_rows}
use muxprune.Scan.Walk.{FileStat, Tree, Walked, nothing_walked, Context, ask, walk, ScanError}
use muxprune.Scan.One.{ScanCalls}
use muxprune.Scan.LibraryScan.{
  scan_videos, may_prune, finish_scan, finish_videos, is_current, videos_by_path, walk_root,
  scan_library,
}
use muxprune.Scan.Grows.{find_first-update_rows, touch_files_bulk-Grows, find_first-delete_where}
use muxprune.Scan.Kept.{Marked, find_first-passes}
use muxprune.Scan.Loop.{Held, Keeps, scan_videos-Grows, Keeps-Grows, scan_videos-In}

true≢false : true ≢ false
true≢false e = cc

is_outside-under :
    (lib : ℕ) (root : Text) (row : MediaFile)
    → has_prefix row.path (with_slash root) ≡ true
    → is_outside lib root row ≡ false
is_outside-under lib root row h = rw h (ground arith)

is_stale-seen :
    (lib start : ℕ) (row : MediaFile) → start ≤ row.scanned_at → is_stale lib start row ≡ false
is_stale-seen lib start row h = ground arith

-- A record that the scan has seen by now.
pub record Seen (start i : ℕ) (p : Text) (fs : List MediaFile) : Type 0 where
  pub row : MediaFile
  pub found : find_first (at_path p) fs ≡ some row
  pub same_id : row.id ≡ i
  pub seen : start ≤ row.scanned_at

touched-Seen :
    (start : ℕ) (ids : List ℕ) (i : ℕ) (p : Text) (db : Db)
    → Marked start ids i p db.files
    → Seen start i p (touch_files_bulk ids start db).files
touched-Seen start ids i p db m = rw (touch_files_bulk-update_rows ids start db) (record {
  row = if is_among ids m.row then seen_at start m.row else m.row;
  found =
      find_first-update_rows (is_among ids) (seen_at start) (λ r e. refl) p db.files m.row m.found;
  same_id = elim (Bool-cases (is_among ids m.row)) [
    | inl e ↦ rw e m.same_id
    | inr e ↦ rw e m.same_id
  ];
  seen = elim (Bool-cases (is_among ids m.row)) [
    | inl e ↦ rw e (omega arith)
    | inr e ↦ rw e (elim m.mark [ inl h ↦ h | inr h ↦ absurd (true≢false (sym h ∙ e)) ])
  ];
})

outside-Seen :
    (lib : ℕ) (root : Text) (start i : ℕ) (p : Text) (db : Db)
    → has_prefix p (with_slash root) ≡ true
    → Seen start i p db.files
    → Seen start i p (prune_files_outside lib root db).1.files
unfolding prune_files_outside delete_files
outside-Seen lib root start i p db under s =
    let path = text_eq→eq s.row.path p (find_first-passes (at_path p) db.files s.row s.found) in
    record {
      row = s.row;
      found =
          find_first-delete_where (at_path p) (is_outside lib root) db.files s.row s.found
            (is_outside-under lib root s.row (rw path under));
      same_id = s.same_id;
      seen = s.seen;
    }

pruned-Keeps :
    (lib start i : ℕ) (p : Text) (db : Db)
    → Seen start i p db.files
    → Keeps i p (prune_files lib start db).1.files
unfolding prune_files delete_files
pruned-Keeps lib start i p db s = record {
  row = s.row;
  found =
      find_first-delete_where (at_path p) (is_stale lib start) db.files s.row s.found
        (is_stale-seen lib start s.row s.seen);
  same_id = s.same_id;
}

module _ {D : Type 0} ⦃f : Float D⦄ (calls : ScanCalls D) (max_ratio : D) (lib : Library)
    (start : ℕ) where
  finish_scan-Keeps :
      (w : Walked) (ids : List ℕ) (i : ℕ) (p : Text) (db : Db)
      → has_prefix p (with_slash lib.path) ≡ true
      → Marked start ids i p db.files
      → Keeps i p (finish_scan calls max_ratio lib w start ids db).files
  unfolding finish_scan
  finish_scan-Keeps w ids i p db under m =
      let touched = touch_files_bulk ids start db in
      let inside = (prune_files_outside lib.id lib.path touched).1 in
      let seen =
        outside-Seen lib.id lib.path start i p touched under (touched-Seen start ids i p db m) in
      elim (Bool-cases (is_current calls lib (get_library lib.id db))) [
        | inr e ↦ rw e (record { row = m.row; found = m.found; same_id = m.same_id })
        | inl e ↦ elim (Bool-cases (may_prune calls max_ratio lib w start inside)) [
          | inl q ↦ rw (e, q) (pruned-Keeps lib.id start i p inside seen)
          | inr q ↦
              rw (e, q) (record { row = seen.row; found = seen.found; same_id = seen.same_id })
        ]
      ]

  finish_videos-Keeps :
      (w : Walked) (i : ℕ) (p : Text) (out : Outcome ScanError (List ℕ) × Db)
      → has_prefix p (with_slash lib.path) ≡ true
      → Held calls lib w start i p out
      → Keeps i p (finish_videos calls max_ratio lib w start out).1.files
  finish_videos-Keeps w i p (ok ids, db) under m = finish_scan-Keeps w ids i p db under m
  finish_videos-Keeps w i p (err e, db) under k = k

  -- Past the walk.
  after_walk-Keeps :
      (P : Db → Type 0) (day_old : FileStat → Bool) (ctx ctx' c : Context) (root : Tree)
      (w : Walked) (db : Db)
      → ask ctx ≡ ok ctx'
      → walk day_old (walk_root calls lib.path) root (nothing_walked, ctx') ≡ ok (w, c)
      → P
          (finish_videos calls max_ratio lib w start
            (scan_videos calls lib w start c (videos_by_path calls w) [] db)).1
      → P (scan_library calls max_ratio day_old start ctx (some root) lib db).1
  unfolding scan_library
  after_walk-Keeps P day_old ctx ctx' c root w db a e h =
      rw (a, scan_library) (rw (e, scan_library) h)

  -- Whatever comes of the scan of a file that the walk found below the root, its record is still
  -- there when the scan of the library ends, under the same identifier.
  pub scan_library-Keeps :
      (day_old : FileStat → Bool) (ctx ctx' c : Context) (root : Tree) (w : Walked) (db : Db)
      (v : Text × FileStat) (row : MediaFile)
      → ask ctx ≡ ok ctx'
      → walk day_old (walk_root calls lib.path) root (nothing_walked, ctx') ≡ ok (w, c)
      → In v w.videos
      → has_prefix v.0 (with_slash lib.path) ≡ true
      → find_first (at_path v.0) db.files ≡ some row
      → (row.id == 0) ≡ false
      → Keeps row.id v.0 (scan_library calls max_ratio day_old start ctx (some root) lib db).1.files
  scan_library-Keeps day_old ctx ctx' c root w db v row a e n under h nz =
      after_walk-Keeps (λ d. Keeps row.id v.0 d.files) day_old ctx ctx' c root w db a e
        (finish_videos-Keeps w row.id v.0 _ under (
          scan_videos-In calls lib w start row.id v c _ [] db nz (In-order_by _ v w.videos n)
            (record { row = row; found = h; same_id = refl })))

  may_prune-walk_err_seen :
      (w : Walked) (db : Db)
      → w.walk_err_seen ≡ true
      → may_prune calls max_ratio lib w start db ≡ false
  unfolding may_prune
  may_prune-walk_err_seen w db bad = rw bad (ground arith)

  finish_scan-spares :
      (w : Walked) (ids : List ℕ) (i : ℕ) (p : Text) (db : Db)
      → w.walk_err_seen ≡ true
      → has_prefix p (with_slash lib.path) ≡ true
      → Keeps i p db.files
      → Keeps i p (finish_scan calls max_ratio lib w start ids db).files
  unfolding finish_scan
  finish_scan-spares w ids i p db bad under k =
      let touched = touch_files_bulk ids start db in
      let later = touch_files_bulk-Grows ids start db p k.row k.found in
      let inside = outside-Seen lib.id lib.path 0 i p touched under (record {
        row = later.now_row;
        found = later.found;
        same_id = later.same_id ∙ k.same_id;
        seen = omega arith;
      }) in
      elim (Bool-cases (is_current calls lib (get_library lib.id db))) [
        | inr e ↦ rw e k
        | inl e ↦
            rw (e, may_prune-walk_err_seen w _ bad)
              (record { row = inside.row; found = inside.found; same_id = inside.same_id })
      ]

  spared-Keeps :
      (w : Walked) (i : ℕ) (p : Text) (out : Outcome ScanError (List ℕ) × Db)
      → w.walk_err_seen ≡ true
      → has_prefix p (with_slash lib.path) ≡ true
      → Keeps i p out.1.files
      → Keeps i p (finish_videos calls max_ratio lib w start out).1.files
  spared-Keeps w i p (ok ids, db) bad under k = finish_scan-spares w ids i p db bad under k
  spared-Keeps w i p (err e, db) bad under k = k

  -- When the walk met an entry that it could not read, the scan of the library drops no record below
  -- the root: not even one whose file it did not find.
  pub scan_library-spares :
      (day_old : FileStat → Bool) (ctx ctx' c : Context) (root : Tree) (w : Walked) (db : Db)
      (p : Text) (row : MediaFile)
      → ask ctx ≡ ok ctx'
      → walk day_old (walk_root calls lib.path) root (nothing_walked, ctx') ≡ ok (w, c)
      → w.walk_err_seen ≡ true
      → has_prefix p (with_slash lib.path) ≡ true
      → find_first (at_path p) db.files ≡ some row
      → Keeps row.id p (scan_library calls max_ratio day_old start ctx (some root) lib db).1.files
  scan_library-spares day_old ctx ctx' c root w db p row a e bad under h =
      after_walk-Keeps (λ d. Keeps row.id p d.files) day_old ctx ctx' c root w db a e
        (spared-Keeps w row.id p _ bad under (
          Keeps-Grows calls lib w start row.id p db.files _
            (scan_videos-Grows calls lib w start c (videos_by_path calls w) [] db)
            (record { row = row; found = h; same_id = refl })))
