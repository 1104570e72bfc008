-- ===== src/Scan/One.antt =====
-- `scanOne` of internal/scan/scanner.go: one video becomes a row, with its subtitles.
use muxprune.Base.{
  ℕ, Bool, true, false, not, ◌&&◌, Option, none, some, List, [], ◌∷◌, map, Text, text, text_eq, ℤ,
  eq_ℤ, Outcome, ok, err, Float, ◌==◌, if◌then◌else◌, join, join_path, base, dir, ext, trim_suffix,
}
use muxprune.Probe.{Result, audio, subtitle}
use muxprune.Probe.Parse.{ProbeError}
use muxprune.Probe.Run.{Prober, probe}
use muxprune.Store.Table.{order_by}
use muxprune.Store.Tables.{Db, DbError, Library, MediaFile, Sidecar}
use muxprune.Store.Libraries.{text_before}
use muxprune.Store.Files.{FileMeta, get_file_by_path_meta, upsert_media_file, touch_file}
use muxprune.Store.Sidecars.{replace_sidecars}
use muxprune.Scan.Names.{Match, own_sidecar, sidecar_label, summarize_video, summarize_streams}
use muxprune.Scan.Walk.{FileStat, ScanError, probe_failed, not_encoded, store_failed, stat_failed}

-- What `ParsePath` reads off the folders: for display only.
pub record Parsed : Type 0 where
  pub kind : Text
  pub series : Text
  pub season : ℤ
  pub episode : Text
  pub title : Text

-- What a scan calls: `os.Stat` on a video (`none` where it fails) and on a subtitle, the prober,
-- `json.Marshal`, and `ParsePath` on the root of the library and the path.
pub record ScanCalls (D : Type 0) : Type 0 where
  pub stat : Text → Option FileStat
  pub prober : Prober
  pub marshal : Result D → Option Text
  pub parse_path : Text → Text → Parsed
  pub now : ℕ

-- The results of `scanOne`.
pub record Scanned : Type 0 where
  pub unchanged : Bool
  pub id : ℕ
  pub error : Option ScanError

abbrev pub scanned : ℕ → Scanned
scanned i = record { unchanged = false; id = i; error = none }

abbrev pub scan_failed : ℕ → ScanError → Scanned
scan_failed i e = record { unchanged = false; id = i; error = some e }

-- The sizes of the directory, where the walk has noted them.
abbrev pub Sizes : Type 0
Sizes = Option (List (Text × ℕ))

abbrev pub noted_size : Text → List (Text × ℕ) → ℕ
noted_size name [] = 0
noted_size name ((n, size) ∷ rest) = if text_eq n name then size else noted_size name rest

abbrev pub size_or_0 : Option FileStat → ℕ
size_or_0 none = 0
size_or_0 (some st) = st.size

abbrev pub sidecar_row : Text → ℕ → Match → Sidecar
sidecar_row path size m = record {
  id = 0;
  file_id = 0;
  path = path;
  name = m.name;
  lang = m.lang;
  hi = m.hi;
  forced = m.forced;
  ext = m.ext;
  size = size;
}

abbrev pub old_id : Option FileMeta → ℕ
old_id none = 0
old_id (some old) = old.id

-- The probe that is stored is of this very file.
abbrev pub is_cached : FileStat → FileMeta → Bool
is_cached info old =
    not (old.id == 0) && (old.has_probe && (old.size == info.size && eq_ℤ old.mtime info.mtime))

-- `return false, id, sc.Store.ReplaceSidecars(id, sidecars)`
abbrev pub with_sidecars_result : ℕ → Outcome DbError (Unit {0}) × Db → Scanned × Db
with_sidecars_result i (ok u, db) = (scanned i, db)
with_sidecars_result i (err e, db) = (scan_failed i (store_failed e), db)

abbrev pub with_sidecars : ℕ → List Sidecar → Db → Scanned × Db
with_sidecars i rows db = with_sidecars_result i (replace_sidecars i rows db)

-- The branch of a probe that is cached.
unfoldable pub refresh : FileStat → FileMeta → Text → List Sidecar → ℕ → Db → Scanned × Db
unfolding touch_file replace_sidecars text_eq
refresh info old summary rows stamp db =
    if old.nlink == info.nlink && text_eq old.sidecar_summary summary
    then (record { unchanged = true; id = old.id; error = none }, db)
    else with_sidecars old.id rows (touch_file old.id info.nlink summary stamp db)

module _ {D : Type 0} ⦃f : Float D⦄ (calls : ScanCalls D) where
  abbrev pub sidecar_size : Text → Text → Sizes → ℕ
  sidecar_size d name (some sizes) = noted_size name sizes
  sidecar_size d name none = size_or_0 (calls.stat (join_path d name))

  -- The subtitles of the video, as rows and as labels.
  unfoldable pub sidecars_among :
      Text → Text → List Text → Sizes → List Text → List (Sidecar × Text)
  unfolding own_sidecar sidecar_label join_path
  sidecars_among d stem siblings sizes [] = []
  sidecars_among d stem siblings sizes (name ∷ names) =
      let rest = sidecars_among d stem siblings sizes names in
      elim (own_sidecar stem siblings name) [
        | none ↦ rest
        | some m ↦
            (sidecar_row (join_path d name) (sidecar_size d name sizes) m, sidecar_label m) ∷ rest
      ]

  unfoldable pub new_row : Library → Text → FileStat → Text → ℕ → Result D → Text → MediaFile
  unfolding summarize_video summarize_streams
  new_row lib path info summary stamp res json =
      let parsed = calls.parse_path lib.path path in
      record {
        id = 0;
        library_id = lib.id;
        path = path;
        size = info.size;
        mtime = info.mtime;
        nlink = info.nlink;
        kind = parsed.kind;
        series = parsed.series;
        season = parsed.season;
        episode = parsed.episode;
        title = parsed.title;
        video_codec = summarize_video res.streams;
        audio_summary = summarize_streams audio res.streams;
        sub_summary = summarize_streams subtitle res.streams;
        sidecar_summary = summary;
        probe_json = json;
        scanned_at = stamp;
      }

  abbrev pub with_row : List Sidecar → ℕ → Outcome DbError ℕ × Db → Scanned × Db
  with_row rows old (err e, db) = (scan_failed old (store_failed e), db)
  with_row rows old (ok i, db) = with_sidecars i rows db

  abbrev pub store_json :
      Library
      → Text
      → FileStat
      → ℕ
      → Text
      → List Sidecar
      → ℕ
      → Result D
      → Option Text
      → Db
      → Scanned × Db
  store_json lib path info old summary rows stamp res none db = (scan_failed old not_encoded, db)
  store_json lib path info old summary rows stamp res (some json) db =
      with_row rows old
        (upsert_media_file calls.now (new_row lib path info summary stamp res json) db)

  abbrev pub store_result :
      Library
      → Text
      → FileStat
      → ℕ
      → Text
      → List Sidecar
      → ℕ
      → Outcome ProbeError (Result D)
      → Db
      → Scanned × Db
  store_result lib path info old summary rows stamp (err e) db =
      (scan_failed old (probe_failed e), db)
  store_result lib path info old summary rows stamp (ok res) db =
      store_json lib path info old summary rows stamp res (calls.marshal res) db

  -- The branch of a file that is new or has changed.
  unfoldable pub probe_again :
      Library → Text → FileStat → ℕ → Text → List Sidecar → ℕ → Db → Scanned × Db
  unfolding probe new_row upsert_media_file replace_sidecars
  probe_again lib path info old summary rows stamp db =
      store_result lib path info old summary rows stamp (probe calls.prober path) db

  abbrev pub current_info : Text → FileStat → FileStat
  current_info path info = elim (calls.stat path) [ none ↦ info | some st ↦ st ]

  abbrev pub scan_with :
      Library → Text → FileStat → Text → List Sidecar → ℕ → Option FileMeta → Db → Scanned × Db
  scan_with lib path info summary rows stamp none db =
      probe_again lib path info 0 summary rows stamp db
  scan_with lib path info summary rows stamp (some old) db =
      if is_cached info old
      then refresh info old summary rows stamp db
      else probe_again lib path info old.id summary rows stamp db

  unfoldable pub scan_one : Library → Text → FileStat → List Text → Sizes → ℕ → Db → Scanned × Db
  unfolding sidecars_among refresh probe_again get_file_by_path_meta order_by text_before join base
      trim_suffix dir
  scan_one lib path info siblings sizes stamp db =
      let found =
        sidecars_among (dir path) (trim_suffix (base path) (ext path)) siblings sizes siblings in
      let summary = join (text " ") (order_by (λ a b. text_before b a) (map (λ sl. sl.1) found)) in
      scan_with lib path (current_info path info) summary (map (λ sl. sl.0) found) stamp
        (get_file_by_path_meta path db) db

  -- `ScanFile`: a file by itself, with the names of the files beside it.
  unfoldable pub scan_file :
      Library → Text → Option FileStat → Option (List Text) → Db → Option ScanError × Db
  unfolding scan_one
  scan_file lib path none siblings db = (some stat_failed, db)
  scan_file lib path (some info) none db = (some stat_failed, db)
  scan_file lib path (some info) (some siblings) db =
      let (r, db') = scan_one lib path info siblings none calls.now db in (r.error, db')
