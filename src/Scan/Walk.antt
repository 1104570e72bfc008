-- ===== src/Scan/Walk.antt =====
-- The walk of `ScanLibrary` in internal/scan/scanner.go: the callback of `filepath.WalkDir` on every
-- entry below the root, in order.
use muxprune.Base.{
  ℕ, zero, suc, Bool, true, false, not, ◌&&◌, Option, none, some, List, [], ◌∷◌, ◌++◌, Text, text,
  has_prefix, ℤ, Outcome, ok, err, ◌>>=◌, if◌then◌else◌, join_path, dir,
}
use muxprune.Probe.{contains}
use muxprune.Probe.Parse.{ProbeError}
use muxprune.Store.Tables.{DbError}
use muxprune.Scan.Names.{is_video}

-- What `Stat` shows of a file; the mtime in seconds.
pub record FileStat : Type 0 where
  pub size : ℕ
  pub mtime : ℤ
  pub nlink : ℕ

pub data StatError : Type 0 where
  not_exist symlink_loop other_error : StatError

-- What is below a directory, as `WalkDir` lists it: the entries that follow come last. `unreadable`
-- is a callback with an error. A file has what `d.Info()` returns and, if it is a symbolic link,
-- what `os.Stat` does.
pub data Tree : Type 0 where
  leaf : Tree
  unreadable : Tree → Tree
  folder : Text → Tree → Tree → Tree
  file : Text → Outcome StatError FileStat → Option (Outcome StatError FileStat) → Tree → Tree

pub data ScanError : Type 0 where
  not_accessible : Text → ScanError
  context_done : ScanError
  probe_failed : ProbeError → ScanError
  not_encoded : ScanError
  store_failed : DbError → ScanError
  stat_failed : ScanError

-- What the callback collects. `names` and `sizes` are `dirFiles` and `dirSizes`, and `removed` the
-- temporary files that it tries to remove.
pub record Walked : Type 0 where
  pub videos : List (Text × FileStat)
  pub names : List (Text × Text)
  pub sizes : List (Text × (Text × ℕ))
  pub walk_err_seen : Bool
  pub removed : List Text

abbrev pub nothing_walked : Walked
nothing_walked = record { videos = []; names = []; sizes = []; walk_err_seen = false; removed = [] }

abbrev pub is_hidden : Text → Bool
is_hidden name = has_prefix name (text ".")

abbrev pub remove_stale :
    (FileStat → Bool) → Text → Text → Outcome StatError FileStat → Walked → Walked
remove_stale day_old path name (ok st) w =
    if contains name (text ".muxprune.tmp.") && day_old st
    then record w { removed = w.removed ++ path ∷ [] }
    else w
remove_stale day_old path name (err e) w = w

abbrev pub is_missing : StatError → Bool
is_missing not_exist = true
is_missing symlink_loop = true
is_missing other_error = false

abbrev pub resolved :
    Outcome StatError FileStat → Option (Outcome StatError FileStat) → Outcome StatError FileStat
resolved (err e) target = err e
resolved (ok st) none = ok st
resolved (ok st) (some t) = t

abbrev pub note_name : Text → Text → Walked → Walked
note_name path name w = record w { names = w.names ++ (dir path, name) ∷ [] }

abbrev pub note_info : Text → Text → Outcome StatError FileStat → Walked → Walked
note_info path name (err e) w =
    if is_video name && not (is_missing e) then record w { walk_err_seen = true } else w
note_info path name (ok st) w = record w {
  sizes = w.sizes ++ (dir path, (name, st.size)) ∷ [];
  videos =
      if is_video name && not (contains name (text ".muxprune.tmp"))
      then w.videos ++ (path, st) ∷ []
      else w.videos;
}

unfoldable pub visit_file :
    (FileStat → Bool)
    → Text
    → Text
    → Outcome StatError FileStat
    → Option (Outcome StatError FileStat)
    → Walked
    → Walked
unfolding dir contains is_video has_prefix
visit_file day_old path name info target w =
    if is_hidden name
    then remove_stale day_old path name info w
    else note_info path name (resolved info target) (note_name path name w)

-- `ctx.Err()` before an entry: `some n` is a context that is done after n more questions.
abbrev pub Context : Type 0
Context = Option ℕ

abbrev pub ask : Context → Outcome ScanError Context
ask none = ok none
ask (some zero) = err context_done
ask (some (suc n)) = ok (some n)

unfoldable pub walk :
    (FileStat → Bool) → Text → Tree → Walked × Context → Outcome ScanError (Walked × Context)
unfolding visit_file join_path has_prefix
walk day_old at leaf s = ok s
walk day_old at (unreadable rest) (w, ctx) =
    walk day_old at rest (record w { walk_err_seen = true }, ctx)
walk day_old at (folder name below rest) (w, ctx) = do
  ctx' ← ask ctx
  s ← (if is_hidden name then ok (w, ctx') else walk day_old (join_path at name) below (w, ctx'))
  walk day_old at rest s
walk day_old at (file name info target rest) (w, ctx) = do
  ctx' ← ask ctx
  walk day_old at rest (visit_file day_old (join_path at name) name info target w, ctx')
