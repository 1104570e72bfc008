-- ===== src/Watch/Watcher.antt =====
-- internal/watch/watcher.go: the watcher of one library. Which folders it watches, and when its timer
-- queues a scan.
pub mod Limit
pub mod Live
pub mod Timer
use muxprune.Base.{
  ℕ, suc, ◌+◌, Bool, true, false, not, ◌&&◌, ◌||◌, Option, none, some, List, [], ◌∷◌, ◌++◌, Text,
  text, text_eq, has_prefix, to_lower, Outcome, ok, err, ltb, leb, ◌==◌, if◌then◌else◌, length,
  keep_if, exists_in, base, ext, trim_prefix, trim_suffix, join_path,
}
use muxprune.Scan.Names.{is_video, is_subtitle_ext}
use muxprune.Scan.Walk.{Tree, leaf, unreadable, folder, file}

unfoldable pub is_relevant_file : Text → Bool
unfolding has_prefix is_video is_subtitle_ext trim_prefix to_lower
is_relevant_file name =
    if has_prefix name (text ".")
    then false
    else if is_video name
    then true
    else is_subtitle_ext (trim_prefix (to_lower (ext name)) (text "."))

-- `isNetworkFSType`: NFS, SMB, SMB2, CIFS and FUSE.
unfoldable pub is_network_fs_type : ℕ → Bool
is_network_fs_type magic =
    magic == 26985
    || (magic == 20859 || (magic == 4266872130 || (magic == 4283649346 || magic == 1702057286)))

-- The watcher, with what `fsnotify` watches for it and the statuses that it has reported. A watcher
-- whose context is done is `stopped`; `timer` is when the timer is to fire.
pub record LibWatcher : Type 0 where
  pub root : Text
  pub debounce : ℕ
  pub watch_limit : ℕ
  pub watch_list : List Text
  pub watches : ℕ
  pub degraded : Bool
  pub dead : Bool
  pub stopped : Bool
  pub timer : Option ℕ
  pub statuses : List Text

abbrev pub default_watch_limit : ℕ
default_watch_limit = 8192

unfoldable pub new_lib_watcher : Text → ℕ → LibWatcher
new_lib_watcher root debounce = record {
  root = root;
  debounce = if debounce == 0 then 10 else debounce;
  watch_limit = default_watch_limit;
  watch_list = [];
  watches = 0;
  degraded = false;
  dead = false;
  stopped = false;
  timer = none;
  statuses = [];
}

abbrev pub is_known : Text → List Text → Bool
is_known p ps = exists_in (text_eq p) ps

abbrev pub report_status : Text → LibWatcher → LibWatcher
report_status t w = record w { statuses = w.statuses ++ t ∷ [] }

-- `fsw.Add`; `accepts` says whether fsnotify takes the path.
abbrev pub fsw_add : Text → LibWatcher → LibWatcher
fsw_add p w = record w {
  watch_list = if is_known p w.watch_list then w.watch_list else w.watch_list ++ p ∷ [];
}

-- `known` is the set that the walk goes by. False where the limit is reached.
unfoldable pub add_watch :
    (Text → Bool) → Text → List Text → LibWatcher → Bool × (List Text × LibWatcher)
unfolding exists_in text_eq
add_watch accepts p known w =
    if not (is_known p known) && (ltb 0 w.watch_limit && leb w.watch_limit w.watches)
    then (
      false,
      (
        known,
        if w.degraded then w else report_status (text "watch-limit") (record w { degraded = true }),
      ),
    )
    else if not (accepts p)
    then (true, (known, w))
    else if is_known p known
    then (true, (known, fsw_add p w))
    else (true, (p ∷ known, fsw_add p (record w { watches = suc w.watches })))

-- The callback of the walk below a folder that is watched.
unfoldable pub add_below :
    (Text → Bool) → Text → Tree → List Text × LibWatcher → List Text × LibWatcher
unfolding add_watch join_path has_prefix
add_below accepts at leaf s = s
add_below accepts at (unreadable rest) s = add_below accepts at rest s
add_below accepts at (file name info target rest) s = add_below accepts at rest s
add_below accepts at (folder name below rest) (known, w) =
    let (added, s) = add_watch accepts (join_path at name) known w in
    let under = add_below accepts (join_path at name) below s in
    add_below accepts at rest
      (if has_prefix name (text ".") then (known, w) else if added then under else s)

-- `none` is a root that the walk cannot read.
unfoldable pub add_recursive : (Text → Bool) → Text → Option Tree → LibWatcher → LibWatcher
unfolding add_below trim_suffix
add_recursive accepts root none w = record w { watches = length w.watch_list }
add_recursive accepts root (some tree) w =
    let known = w.watch_list in
    let (added, s) = add_watch accepts root known (record w { watches = length known }) in
    let under = add_below accepts (trim_suffix root (text "/") ++ text "/") tree s in
    if added then under.1 else s.1

unfoldable pub schedule : ℕ → LibWatcher → LibWatcher
schedule now w = record w { timer = some (now + w.debounce) }

-- The watcher, and whether the scan is queued.
unfoldable pub fire : LibWatcher → LibWatcher × Bool
fire w = (record w { timer = none }, not (w.stopped || w.dead))

unfoldable pub stop : LibWatcher → LibWatcher
stop w = record w { timer = none; stopped = true }

unfoldable pub died : Text → LibWatcher → LibWatcher
died reason w =
    if w.stopped then w else report_status (text "error: " ++ reason) (record w { dead = true })

-- An event of fsnotify: `gone` is a rename or a removal; `is_dir` is what `os.Lstat` shows of a new
-- entry, and `below` what a walk would meet there.
pub record Event : Type 0 where
  pub path : Text
  pub gone : Bool
  pub created : Bool
  pub is_dir : Bool
  pub below : Option Tree

abbrev pub forget_path : Text → LibWatcher → LibWatcher
forget_path path w = record w {
  watch_list = keep_if (λ p. not (text_eq p path || has_prefix p (path ++ text "/"))) w.watch_list;
}

-- The event has the watcher schedule a scan.
unfoldable pub schedules : Event → Bool
unfolding is_relevant_file base has_prefix
schedules ev =
    let name = base ev.path in
    if ev.created && ev.is_dir
    then not (has_prefix name (text "."))
    else is_relevant_file name || (ev.gone && not (has_prefix name (text ".")))

unfoldable pub handle : (Text → Bool) → ℕ → Event → LibWatcher → LibWatcher
unfolding add_recursive schedule is_relevant_file base has_prefix text_eq
handle accepts now ev w =
    let name = base ev.path in
    let w' = if ev.gone then forget_path ev.path w else w in
    if ev.created && ev.is_dir
    then (if not (has_prefix name (text "."))
        then schedule now (add_recursive accepts ev.path ev.below w')
        else w')
    else if is_relevant_file name || (ev.gone && not (has_prefix name (text ".")))
    then schedule now w'
    else w'

-- The error stream: the root is watched anew, and a scan is scheduled for what was missed.
unfoldable pub reconnect : (Text → Bool) → ℕ → Option Tree → LibWatcher → LibWatcher
unfolding add_recursive schedule died text_eq
reconnect accepts now tree w =
    let started = report_status (text "reconnecting") w in
    let again = schedule now (
      add_recursive accepts w.root tree
        (record (fsw_add w.root started) { watches = 0; degraded = false })) in
    if not (accepts w.root)
    then died (text "re-add root failed") started
    else if again.degraded
    then again
    else report_status (text "watching") again
