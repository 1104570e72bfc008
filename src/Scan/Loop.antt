-- ===== src/Scan/Loop.antt =====
-- What the loop of `ScanLibrary` over the videos does to the records, and to their marks.
use mathlib.Core.Path.{subst}
use muxprune.Base.{
  ℕ, ◌≡◌, sym, ◌∙◌, false, some, List, [], ◌∷◌, Text, dir, Float, Outcome, ok, err, ◌==◌,
  find_first, In, here, there, Outcome-cases, inl, inr,
}
use muxprune.Store.Tables.{Db, Library, MediaFile}
use muxprune.Store.Files.{at_path}
use muxprune.Scan.Walk.{FileStat, Walked, Context, ask, ScanError}
use muxprune.Scan.One.{ScanCalls}
use muxprune.Scan.LibraryScan.{add_pending, sizes_in, scan_video, scan_videos}
use muxprune.Scan.Grows.{Later, Grows, Grows-refl, Grows-trans, scan_one-Grows}
use muxprune.Scan.Kept.{Marked, Marked-Grows, exists_in-add_pending, scan_one-Marked}

-- The record of the path is there, under the identifier.
pub record Keeps (i : ℕ) (p : Text) (fs : List MediaFile) : Type 0 where
  pub row : MediaFile
  pub found : find_first (at_path p) fs ≡ some row
  pub same_id : row.id ≡ i

Later-Keeps :
    (row : MediaFile) (p : Text) (fs : List MediaFile) → Later row p fs → Keeps row.id p fs
Later-Keeps row p fs l = record { row = l.now_row; found = l.found; same_id = l.same_id }

module _ {D : Type 0} ⦃f : Float D⦄ (calls : ScanCalls D) (lib : Library) (w : Walked)
    (start : ℕ) where
  scan_video-Grows :
      (v : Text × FileStat) (db : Db) → Grows db.files (scan_video calls lib w start v db).1.files
  scan_video-Grows v db =
      scan_one-Grows calls lib v.0 v.1 _ (some (sizes_in (dir v.0) w.sizes)) start db

  pub scan_videos-Grows :
      (ctx : Context) (vs : List (Text × FileStat)) (ids : List ℕ) (db : Db)
      → Grows db.files (scan_videos calls lib w start ctx vs ids db).1.files
  unfolding scan_videos
  scan_videos-Grows ctx [] ids db = Grows-refl db.files
  scan_videos-Grows ctx (v ∷ vs) ids db = elim (Outcome-cases (ask ctx)) [
    | inr (e, h) ↦ rw (h, scan_videos) (Grows-refl db.files)
    | inl (c, h) ↦
        (let out = scan_video calls lib w start v db in
          rw (h, scan_videos)
            (Grows-trans db.files out.1.files _ (scan_video-Grows v db)
              (scan_videos-Grows c vs (add_pending out.0 ids) out.1)))
  ]

  -- What the loop leaves of a record: a mark, or the record itself where the context ended it.
  abbrev pub Held : ℕ → Text → Outcome ScanError (List ℕ) × Db → Type 0
  Held i p (ok ks, db) = Marked start ks i p db.files
  Held i p (err e, db) = Keeps i p db.files

  scan_videos-stays :
      (i : ℕ) (p : Text) (ctx : Context) (vs : List (Text × FileStat)) (ids : List ℕ) (db : Db)
      → Marked start ids i p db.files
      → Held i p (scan_videos calls lib w start ctx vs ids db)
  unfolding scan_videos
  scan_videos-stays i p ctx [] ids db m = m
  scan_videos-stays i p ctx (v ∷ vs) ids db m = elim (Outcome-cases (ask ctx)) [
    | inr (x, h) ↦
        rw (h, scan_videos) (record { row = m.row; found = m.found; same_id = m.same_id })
    | inl (c, h) ↦
        (let out = scan_video calls lib w start v db in
          rw (h, scan_videos)
            (scan_videos-stays i p c vs (add_pending out.0 ids) out.1 (
              Marked-Grows start ids (add_pending out.0 ids) i p db.files out.1.files
                (λ q. exists_in-add_pending q out.0 ids) (scan_video-Grows v db) m)))
  ]

  pub Keeps-Grows :
      (i : ℕ) (p : Text) (fs gs : List MediaFile) → Grows fs gs → Keeps i p fs → Keeps i p gs
  Keeps-Grows i p fs gs g k =
      let l = g p k.row k.found in
      record { row = l.now_row; found = l.found; same_id = l.same_id ∙ k.same_id }

  scan_video-Marked :
      (i : ℕ) (v : Text × FileStat) (ids : List ℕ) (db : Db)
      → (i == 0) ≡ false
      → Keeps i v.0 db.files
      → let out = scan_video calls lib w start v db in
        Marked start (add_pending out.0 ids) i v.0 out.1.files
  scan_video-Marked i v ids db nz k =
      let nz' : (k.row.id == 0) ≡ false = rw k.same_id nz in
      subst
        (λ n.
          Marked start (add_pending (scan_video calls lib w start v db).0 ids) n v.0
            (scan_video calls lib w start v db).1.files)
        k.same_id
        (scan_one-Marked start v.0 k.row calls lib v.1 _ (some (sizes_in (dir v.0) w.sizes)) ids db
          nz' k.found)

  pub scan_videos-In :
      (i : ℕ) (v : Text × FileStat) (ctx : Context) (vs : List (Text × FileStat)) (ids : List ℕ)
      (db : Db)
      → (i == 0) ≡ false
      → In v vs
      → Keeps i v.0 db.files
      → Held i v.0 (scan_videos calls lib w start ctx vs ids db)
  unfolding scan_videos
  scan_videos-In i v ctx [] ids db nz n k = elim n [ ]
  scan_videos-In i v ctx (u ∷ vs) ids db nz n k = elim (Outcome-cases (ask ctx)) [
    | inr (x, h) ↦ rw (h, scan_videos) k
    | inl (c, h) ↦
        (let out = scan_video calls lib w start u db in
          rw (h, scan_videos)
            (elim n [
              | here e ↦ scan_videos-stays i v.0 c vs (add_pending out.0 ids) out.1 (
                  subst (λ t. Marked start (add_pending out.0 ids) i t.0 out.1.files) e
                    (scan_video-Marked i u ids db nz (subst (λ t. Keeps i t.0 db.files) (sym e) k)))
              | there n' ↦
                  scan_videos-In i v c vs (add_pending out.0 ids) out.1 nz n'
                    (Keeps-Grows i v.0 db.files out.1.files (scan_video-Grows u db) k)
            ]))
  ]
