-- ===== src/Examples/Scanning.antt =====
-- A library of two films and a folder that cannot be read.
use muxprune.Base.{
  ℕ, ◌+◌, ◌≡◌, refl, Bool, true, false, none, some, List, [], ◌∷◌, ◌++◌, Text, text, to_lower, ℤ,
  pos, ok, err, Outcome, here, there,
}
use muxprune.Probe.Parse.{ffprobe_failed}
use muxprune.Store.Tables.{Library}
use muxprune.Scan.Names.{Match, match_sidecar, own_sidecar, stem}
use muxprune.Scan.Matched.{sidecar_name, as_named, match_sidecar-sidecar_name}
use muxprune.Scan.Owned.{own_sidecar-stem}
use muxprune.Scan.Walk.{FileStat, Tree, leaf, unreadable, folder, file, Walked}
use muxprune.Scan.One.{ScanCalls}
use muxprune.Scan.LibraryScan.{scan_library}
use muxprune.Scan.Loop.{Keeps}
use muxprune.Scan.Pruned.{scan_library-Keeps, scan_library-spares}
use muxprune.Examples.Tracks.{wholes}
use muxprune.Examples.Database.{library, film, db}

match_sidecar-sidecar_name_example :
    match_sidecar (text "a.b.pt-BR.forced.SRT") (text "a.b")
    ≡ some (as_named (text "a.b") (text "pt-BR") false true (text "SRT"))
unfolding muxprune.Scan.Names.is_lang_token muxprune.Scan.Names.is_hi_token
    muxprune.Scan.Names.is_forced_token muxprune.Scan.Names.is_subtitle_ext sidecar_name
match_sidecar-sidecar_name_example =
    match_sidecar-sidecar_name (text "a.b") (text "pt-BR") (text "SRT") false true refl refl refl
      refl

abbrev siblings : List Text
siblings = text "a.mkv" ∷ text "a.mp4" ∷ text "a.eng.srt" ∷ []

abbrev english : Match
english = record {
  name = text "a.eng.srt";
  lang = text "eng";
  hi = false;
  forced = false;
  ext = text "srt";
}

own_sidecar-stem_example : stem (text "a.mkv") ≡ stem (text "a.mp4")
unfolding own_sidecar muxprune.Scan.Names.is_video muxprune.Base.ext_from muxprune.Base.keep_if
    muxprune.Base.has_suffix
own_sidecar-stem_example =
    own_sidecar-stem siblings (text "a.eng.srt") (text "a.mkv") (text "a.mp4") english english
      (here refl) (there (here refl)) refl refl refl refl

abbrev info : FileStat
info = record { size = 99; mtime = pos 7; nlink = 1 }

abbrev calls : ScanCalls ℤ
calls = record {
  stat = λ p. some info;
  prober = record {
    ffprobe_bin = text "/bin/ffprobe";
    mkvmerge_bin = [];
    ffprobe = λ p. err ffprobe_failed;
    identify = λ p. none;
  };
  marshal = λ r. some (text "{}");
  parse_path = λ root p. record {
    kind = text "movie";
    series = [];
    season = pos 0;
    episode = [];
    title = [];
  };
  now = 50;
}

abbrev films : Library
films = record (library (text "/m")) { id = 1 }

abbrev root : Tree
root = file (text "a.mkv") (ok info) none (unreadable leaf)

abbrev walked : Walked
walked = record {
  videos = (text "/m/a.mkv", info) ∷ [];
  names = (text "/m", text "a.mkv") ∷ [];
  sizes = (text "/m", (text "a.mkv", 99)) ∷ [];
  walk_err_seen = true;
  removed = [];
}

-- The probe of the film fails.
scan_library-Keeps_example :
    Keeps 4
      (text "/m/a.mkv")
      (scan_library ⦃f = wholes⦄ calls (pos 0) (λ st. false) 50 none (some root) films db).1.files
unfolding muxprune.Scan.Walk.walk muxprune.Base.trim_suffix muxprune.Base.has_prefix
    muxprune.Base.find_first muxprune.Base.ext_from muxprune.Base.has_suffix
scan_library-Keeps_example =
    scan_library-Keeps ⦃f = wholes⦄ calls (pos 0) films 50 (λ st. false) none none none root walked
      db (text "/m/a.mkv", info) (film 4 (text "/m/a.mkv")) refl refl (here refl) refl refl refl

-- The other film was not found.
scan_library-spares_example :
    Keeps 6
      (text "/m/b.mkv")
      (scan_library ⦃f = wholes⦄ calls (pos 0) (λ st. false) 50 none (some root) films db).1.files
unfolding muxprune.Scan.Walk.walk muxprune.Base.trim_suffix muxprune.Base.has_prefix
    muxprune.Base.find_first muxprune.Base.ext_from muxprune.Base.has_suffix
scan_library-spares_example =
    scan_library-spares ⦃f = wholes⦄ calls (pos 0) films 50 (λ st. false) none none none root walked
      db (text "/m/b.mkv") (film 6 (text "/m/b.mkv")) refl refl refl refl refl
