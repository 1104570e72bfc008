-- ===== src/Examples/Watching.antt =====
-- A monitor with one library to scan, and its watcher.
use muxprune.Base.{
  ℕ, ◌+◌, ◌≤◌, ◌≡◌, refl, arith, Bool, true, false, none, some, List, [], ◌∷◌, Text, text, ℤ, pos,
  ok, err, length, here, inl,
}
use muxprune.Store.Jobs.{is_scan_active}
use muxprune.Store.Tables.{Library}
use muxprune.Scan.Walk.{Tree, leaf, folder}
use muxprune.Watch.{due_for_scan, tick}
use muxprune.Watch.Due.{tick-due}
use muxprune.Watch.Reconcile.{Watch, MonitorState, Outside, reconcile}
use muxprune.Watch.Reconcile.Catchup.{IsCovered, reconcile-IsCovered}
use muxprune.Watch.Watcher.{LibWatcher, new_lib_watcher, Event, handle, add_recursive, schedules}
use muxprune.Watch.Watcher.Limit.{add_recursive-le-limit}
use muxprune.Watch.Watcher.Timer.{queued_at, IsQueuedFrom, handle-IsQueuedFrom}
use muxprune.Examples.Database.{library, db}

abbrev films : Library
films = record (library (text "/m")) { id = 1 }

tick-due_example : is_scan_active 1 (tick 100 db).jobs ≡ true
unfolding due_for_scan
tick-due_example = tick-due 100 films db (here refl) refl

abbrev watch : Watch
watch = record { lib_id = 1; root = text "/old"; number = 0; scheduled = false }

abbrev monitor : MonitorState
monitor = record {
  watchers = watch ∷ [];
  statuses = [];
  catchup = [];
  stopped = [];
  next_number = 1;
}

abbrev outside : Outside
outside = record {
  is_local_fs = λ p. true;
  is_healthy = λ w. true;
  start = λ lib. err (text "no space");
}

-- The library has moved, and its new watcher does not start.
reconcile-IsCovered_example : IsCovered 1 watch (reconcile true outside (films ∷ []) monitor)
unfolding muxprune.Base.exists_in muxprune.Base.find_first
reconcile-IsCovered_example =
    reconcile-IsCovered true outside (films ∷ []) monitor 1 watch refl (inl refl)

abbrev watcher : LibWatcher
watcher = record (new_lib_watcher (text "/m") 10) { watch_limit = 2; watch_list = text "/m" ∷ [] }

abbrev tree : Tree
tree = folder (text "a") (folder (text "b") leaf leaf) (folder (text ".c") leaf leaf)

add_recursive-le-limit_example :
    (length (add_recursive (λ p. true) (text "/m") (some tree) watcher).watch_list ≤ 2)
    × ((add_recursive (λ p. true) (text "/m") (some tree) watcher).watches
        ≡ length (add_recursive (λ p. true) (text "/m") (some tree) watcher).watch_list)
add_recursive-le-limit_example =
    add_recursive-le-limit (λ p. true) (text "/m") (some tree) watcher (omega arith) (omega arith)

abbrev change : Text → Event
change path = record { path = path; gone = false; created = true; is_dir = false; below = none }

handle-IsQueuedFrom_example : IsQueuedFrom 13 (
    queued_at
      (λ p. true)
      ((7, change (text "/m/b.srt")) ∷ [])
      (handle (λ p. true) 3 (change (text "/m/a.mkv")) watcher))
unfolding schedules new_lib_watcher muxprune.Base.ext_from
handle-IsQueuedFrom_example =
    handle-IsQueuedFrom (λ p. true) 3 (change (text "/m/a.mkv"))
      ((7, change (text "/m/b.srt")) ∷ []) watcher refl refl refl (omega arith, tt)
