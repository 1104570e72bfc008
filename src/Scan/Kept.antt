-- ===== src/Scan/Kept.antt =====
-- The marks that the scan of one file leaves on its record: the time of the scan, or a place among the
-- identifiers to touch at the end.
use Prim.Native.Nat.{max}
use muxprune.Base.{
  ℕ, ◌≤◌, ◌≡◌, ◌⊎◌, refl, sym, ap, ◌∙◌, Bool, true, false, ◌&&◌, Option, none, some, List, [], ◌∷◌,
  ◌++◌, arith, Text, text_eq, text_eq→eq, Float, Outcome, ok, err, ◌==◌, ==_self, if◌then◌else◌,
  find_first, exists_in, Bool-cases, inl, inr,
}
use muxprune.Store.Table.{update_rows}
use muxprune.Store.Tables.{
  Db, foreign_key_violation, Library, MediaFile, Sidecar, is_file, has_library,
}
use muxprune.Store.Files.{
  FileMeta, at_path, meta_of, get_file_by_path_meta, overwrite_file, upsert_rows, upsert_media_file,
  scan_time, touched, touch_file,
}
use muxprune.Probe.{Result}
use muxprune.Probe.Parse.{ProbeError}
use muxprune.Probe.Run.{probe}
use muxprune.Scan.Walk.{probe_failed, not_encoded, store_failed, FileStat, ScanError}
use muxprune.Scan.One.{
  new_row, store_json, store_result, Sizes, ScanCalls, Scanned, with_row, with_sidecars, refresh,
  probe_again, scan_with, scan_one, is_cached, scan_failed,
}
use muxprune.Scan.LibraryScan.{add_pending, is_pending}
use muxprune.Scan.Grows.{Grows, find_first-update_rows, with_sidecars-files}

-- The row of the path was scanned in this scan, or is to be touched at its end.
pub record Marked (start : ℕ) (ids : List ℕ) (i : ℕ) (p : Text) (fs : List MediaFile) : Type 0 where
  pub row : MediaFile
  pub found : find_first (at_path p) fs ≡ some row
  pub same_id : row.id ≡ i
  pub mark : (start ≤ row.scanned_at) ⊎ (exists_in (λ k. row.id == k) ids ≡ true)

exists_in-append_more :
    {A : Type 0} (q : A → Bool) (xs ys : List A)
    → exists_in q xs ≡ true
    → exists_in q (xs ++ ys) ≡ true
unfolding exists_in
exists_in-append_more q [] ys h = cc
exists_in-append_more q (x ∷ xs) ys h = ground (arith, exists_in-append_more q xs ys)

exists_in-last :
    {A : Type 0} (q : A → Bool) (xs : List A) (x : A)
    → q x ≡ true
    → exists_in q (xs ++ x ∷ []) ≡ true
unfolding exists_in
exists_in-last q [] x h = rw h refl
exists_in-last q (y ∷ xs) x h = ground (arith, exists_in-last q xs x h)

pub exists_in-add_pending :
    (q : ℕ → Bool) (r : Scanned) (ids : List ℕ)
    → exists_in q ids ≡ true
    → exists_in q (add_pending r ids) ≡ true
exists_in-add_pending q r ids h = elim (Bool-cases (is_pending r)) [
  | inl e ↦ rw e (exists_in-append_more q ids (r.id ∷ []) h)
  | inr e ↦ rw e h
]

pub Marked-Grows :
    (start : ℕ) (ids ks : List ℕ) (i : ℕ) (p : Text) (fs gs : List MediaFile)
    → ((q : ℕ → Bool) → exists_in q ids ≡ true → exists_in q ks ≡ true)
    → Grows fs gs
    → Marked start ids i p fs
    → Marked start ks i p gs
Marked-Grows start ids ks i p fs gs more g m =
    let later = g p m.row m.found in
    record {
      row = later.now_row;
      found = later.found;
      same_id = later.same_id ∙ m.same_id;
      mark = elim m.mark [
        | inl h ↦ inl (omega (arith, h, later.no_older))
        | inr h ↦ inr (more _ (rw later.same_id h))
      ];
    }

passes_head : {A : Type 0} (q : A → Bool) (x y : A) → q y ≡ true → some y ≡ some x → q x ≡ true
passes_head q x y e h = ap (λ o. elim o [ none ↦ true | some z ↦ q z ]) (sym h) ∙ e

pub find_first-passes :
    {A : Type 0} (q : A → Bool) (xs : List A) (x : A) → find_first q xs ≡ some x → q x ≡ true
unfolding find_first
find_first-passes q [] x h = cc
find_first-passes q (y ∷ xs) x h = elim (Bool-cases (q y)) [
  | inl e ↦ passes_head q x y e (rw e at h)
  | inr e ↦ find_first-passes q xs x (rw e at h)
]

same_meta : (a b : FileMeta) → some a ≡ some b → a ≡ b
same_meta a b h = ap (λ o. elim o [ none ↦ a | some z ↦ z ]) h

meta_found :
    (p : Text) (db : Db) (row : MediaFile)
    → find_first (at_path p) db.files ≡ some row
    → get_file_by_path_meta p db ≡ some (meta_of row)
unfolding get_file_by_path_meta
meta_found p db row h = rw (h, get_file_by_path_meta) refl

scan_time-le :
    (at : ℕ) (m : MediaFile) (start : ℕ) (row : MediaFile)
    → m.scanned_at ≡ start
    → start ≤ max row.scanned_at (scan_time at m.scanned_at)
scan_time-le at m start row e = ground (arith, e)

module _ (start : ℕ) (p : Text) (row : MediaFile) where
  Marked-pending :
      (r : Scanned) (ids : List ℕ) (fs : List MediaFile)
      → is_pending r ≡ true
      → r.id ≡ row.id
      → find_first (at_path p) fs ≡ some row
      → Marked start (add_pending r ids) row.id p fs
  Marked-pending r ids fs pending same h = record {
    row = row;
    found = h;
    same_id = refl;
    mark = rw pending (inr (exists_in-last (λ k. row.id == k) ids r.id (rw same (==_self row.id))));
  }

  Marked-seen :
      (r : Scanned) (ids : List ℕ) (q : MediaFile → Bool) (f : MediaFile → MediaFile)
      (paths : (x : MediaFile) → q x ≡ true → (f x).path ≡ x.path) (fs gs : List MediaFile)
      → gs ≡ update_rows q f fs
      → find_first (at_path p) fs ≡ some row
      → q row ≡ true
      → (f row).id ≡ row.id
      → start ≤ (f row).scanned_at
      → Marked start (add_pending r ids) row.id p gs
  Marked-seen r ids q f paths fs gs same h t i older = record {
    row = f row;
    found =
        rw same (
          find_first-update_rows q f paths p fs row h
          ∙ ap (λ b. some (if b then f row else row)) t);
    same_id = i;
    mark = inl older;
  }

  -- A failure under a known identifier leaves the file pending.
  Marked-failed :
      (e : ScanError) (ids : List ℕ) (fs : List MediaFile)
      → (row.id == 0) ≡ false
      → find_first (at_path p) fs ≡ some row
      → Marked start (add_pending (scan_failed row.id e) ids) row.id p fs
  Marked-failed e ids fs nz h = Marked-pending (scan_failed row.id e) ids fs (rw nz refl) refl h

  refresh-Marked :
      (info : FileStat) (summary : Text) (rows : List Sidecar) (ids : List ℕ) (db : Db)
      → find_first (at_path p) db.files ≡ some row
      → let out = refresh info (meta_of row) summary rows start db in
        Marked start (add_pending out.0 ids) row.id p out.1.files
  unfolding refresh touch_file
  refresh-Marked info summary rows ids db h =
      elim (Bool-cases (row.nlink == info.nlink && text_eq row.sidecar_summary summary)) [
        | inl e ↦ rw e (
            Marked-pending (record { unchanged = true; id = row.id; error = none }) ids db.files
              refl refl h)
        | inr e ↦ rw e (
            Marked-seen
              (with_sidecars row.id rows (touch_file row.id info.nlink summary start db)).0 ids
              (is_file row.id) (touched info.nlink summary start) (λ x t. refl) db.files _
              (with_sidecars-files row.id rows _) h (==_self row.id) refl (omega arith))
      ]

  module _ {D : Type 0} ⦃f : Float D⦄ (calls : ScanCalls D) where
    with_row-Marked :
        (rows : List Sidecar) (at : ℕ) (m : MediaFile) (ids : List ℕ) (db : Db)
        → (row.id == 0) ≡ false
        → m.path ≡ p
        → m.scanned_at ≡ start
        → find_first (at_path p) db.files ≡ some row
        → let out = with_row calls rows row.id (upsert_media_file at m db) in
          Marked start (add_pending out.0 ids) row.id p out.1.files
    unfolding upsert_media_file
    with_row-Marked rows at m ids db nz pe se h =
        elim (Bool-cases (has_library db.libraries m.library_id)) [
          | inr e ↦ rw e (Marked-failed (store_failed foreign_key_violation) ids db.files nz h)
          | inl e ↦
              (let found : find_first (at_path m.path) db.files ≡ some row = rw pe h in
                rw (e, upsert_rows)
                  (rw (found, upsert_rows)
                    (Marked-seen
                      (with_sidecars row.id rows (record db {
                        files =
                            update_rows (at_path m.path)
                              (overwrite_file (scan_time at m.scanned_at) m) db.files;
                      })).0
                      ids (at_path m.path) (overwrite_file (scan_time at m.scanned_at) m)
                      (λ x t. sym (text_eq→eq x.path m.path t)) db.files _
                      (with_sidecars-files row.id rows _) h
                      (rw pe (find_first-passes (at_path p) db.files row h)) refl
                      (scan_time-le at m start row se))))
        ]

    store_json-Marked :
        (lib : Library) (info : FileStat) (summary : Text) (rows : List Sidecar) (res : Result D)
        (json : Option Text) (ids : List ℕ) (db : Db)
        → (row.id == 0) ≡ false
        → find_first (at_path p) db.files ≡ some row
        → let out = store_json calls lib p info row.id summary rows start res json db in
          Marked start (add_pending out.0 ids) row.id p out.1.files
    unfolding new_row
    store_json-Marked lib info summary rows res none ids db nz h =
        Marked-failed not_encoded ids db.files nz h
    store_json-Marked lib info summary rows res (some json) ids db nz h =
        with_row-Marked rows calls.now (new_row calls lib p info summary start res json) ids db nz
          refl refl h

    probe_again-Marked :
        (lib : Library) (info : FileStat) (summary : Text) (rows : List Sidecar)
        (res : Outcome ProbeError (Result D)) (ids : List ℕ) (db : Db)
        → (row.id == 0) ≡ false
        → find_first (at_path p) db.files ≡ some row
        → let out = store_result calls lib p info row.id summary rows start res db in
          Marked start (add_pending out.0 ids) row.id p out.1.files
    probe_again-Marked lib info summary rows (err e) ids db nz h =
        Marked-failed (probe_failed e) ids db.files nz h
    probe_again-Marked lib info summary rows (ok res) ids db nz h =
        store_json-Marked lib info summary rows res (calls.marshal res) ids db nz h

    scan_with-Marked :
        (lib : Library) (info : FileStat) (summary : Text) (rows : List Sidecar)
        (old : Option FileMeta) (ids : List ℕ) (db : Db)
        → (row.id == 0) ≡ false
        → old ≡ some (meta_of row)
        → find_first (at_path p) db.files ≡ some row
        → let out = scan_with calls lib p info summary rows start old db in
          Marked start (add_pending out.0 ids) row.id p out.1.files
    unfolding probe_again
    scan_with-Marked lib info summary rows none ids db nz same h = cc
    scan_with-Marked lib info summary rows (some old) ids db nz same h =
        rw (same_meta old (meta_of row) same) (elim (Bool-cases (is_cached info (meta_of row))) [
          | inl e ↦ rw e (refresh-Marked info summary rows ids db h)
          | inr e ↦
              rw e (probe_again-Marked lib info summary rows (probe calls.prober p) ids db nz h)
        ])

    -- The scan of a file that has a record marks the record, whether it fails or not.
    pub scan_one-Marked :
        (lib : Library) (info : FileStat) (siblings : List Text) (sizes : Sizes) (ids : List ℕ)
        (db : Db)
        → (row.id == 0) ≡ false
        → find_first (at_path p) db.files ≡ some row
        → let out = scan_one calls lib p info siblings sizes start db in
          Marked start (add_pending out.0 ids) row.id p out.1.files
    unfolding scan_one
    scan_one-Marked lib info siblings sizes ids db nz h =
        scan_with-Marked lib _ _ _ (get_file_by_path_meta p db) ids db nz (meta_found p db row h) h
