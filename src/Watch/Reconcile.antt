-- ===== src/Watch/Reconcile.antt =====
-- `Monitor.Reconcile` of internal/watch/monitor.go: which libraries are watched, and which have a
-- scan to catch up on.
pub mod Catchup
use muxprune.Base.{
  ℕ, suc, map, Bool, true, false, not, ◌&&◌, ◌||◌, Option, none, some, List, [], ◌∷◌, ◌++◌, Text,
  text, text_eq, Outcome, ok, err, ◌==◌, if◌then◌else◌, find_first, exists_in, keep_if,
}
use muxprune.Store.Table.{delete_where}
use muxprune.Store.Tables.{Library}

-- A watcher in the map `watchers`. `number` tells watchers apart, and `scheduled` says that
-- `schedule` was called as it started.
pub record Watch : Type 0 where
  pub lib_id : ℕ
  pub root : Text
  pub number : ℕ
  pub scheduled : Bool

-- The maps of the monitor, and the watchers that it has stopped.
pub record MonitorState : Type 0 where
  pub watchers : List Watch
  pub statuses : List (ℕ × Text)
  pub catchup : List ℕ
  pub stopped : List ℕ
  pub next_number : ℕ

-- What the monitor asks of the outside: `isLocalFS`, whether a watcher lives and still watches its
-- root, and how a new one starts, degraded or not, or why it cannot.
pub record Outside : Type 0 where
  pub is_local_fs : Text → Bool
  pub is_healthy : Watch → Bool
  pub start : Library → Outcome Text Bool

abbrev pub watches : ℕ → Watch → Bool
watches i w = w.lib_id == i

abbrev pub should_watch : Bool → Outside → Library → Bool
should_watch global out lib = lib.watch_enabled && (global && out.is_local_fs lib.path)

abbrev pub lists : ℕ → Library → Bool
lists i lib = lib.id == i

-- A set of identifiers as the list of them.
abbrev pub insert_id : ℕ → List ℕ → List ℕ
insert_id i is = i ∷ keep_if (λ k. not (k == i)) is

abbrev pub remove_id : ℕ → List ℕ → List ℕ
remove_id i is = keep_if (λ k. not (k == i)) is

abbrev pub has_id : ℕ → List ℕ → Bool
has_id i is = exists_in (λ k. k == i) is

-- The watcher is of a library that is gone, that is not to be watched, or that has moved.
abbrev pub is_unwanted : Bool → Outside → List Library → Watch → Bool
is_unwanted global out libs w = elim (find_first (lists w.lib_id) libs) [
  | none ↦ true
  | some lib ↦ not (should_watch global out lib) || not (text_eq w.root lib.path)
]

abbrev pub is_listed : List Library → ℕ → Bool
is_listed libs i = exists_in (lists i) libs

abbrev pub drop_watch : List Library → Watch → MonitorState → MonitorState
drop_watch libs w s = record s {
  watchers = delete_where (watches w.lib_id) s.watchers;
  stopped = s.stopped ++ w.number ∷ [];
  catchup = if is_listed libs w.lib_id then insert_id w.lib_id s.catchup else s.catchup;
}

-- Every unwanted watcher goes; a library that is still listed has its scan to catch up on.
unfoldable pub drop_unwanted :
    Bool → Outside → List Library → List Watch → MonitorState → MonitorState
unfolding delete_where
drop_unwanted global out libs [] s = s
drop_unwanted global out libs (w ∷ ws) s =
    drop_unwanted global out libs ws
      (if is_unwanted global out libs w then drop_watch libs w s else s)

abbrev pub is_forgotten : List Library → List (ℕ × Text) → ℕ → Bool
is_forgotten libs statuses i =
    exists_in (λ (kv : ℕ × Text). kv.0 == i) statuses && not (is_listed libs i)

-- The libraries that are listed no more leave the maps.
unfoldable pub drop_forgotten : List Library → MonitorState → MonitorState
drop_forgotten libs s = record s {
  statuses = keep_if (λ kv. is_listed libs kv.0) s.statuses;
  catchup = keep_if (λ i. not (is_forgotten libs s.statuses i)) s.catchup;
}

abbrev pub set_status : ℕ → Text → MonitorState → MonitorState
set_status i t s = record s { statuses = (i, t) ∷ keep_if (λ kv. not (kv.0 == i)) s.statuses }

-- The watcher that starts is scheduled when the library has a scan to catch up on.
abbrev pub new_watch : Library → MonitorState → Watch
new_watch lib s = record {
  lib_id = lib.id;
  root = lib.path;
  number = s.next_number;
  scheduled = has_id lib.id s.catchup;
}

abbrev pub start_watcher : Library → Outcome Text Bool → MonitorState → MonitorState
start_watcher lib (err e) s = set_status lib.id (text "error: " ++ e) s
start_watcher lib (ok degraded) s =
    set_status lib.id (if degraded then text "watch-limit" else text "watching") (record s {
      watchers = new_watch lib s ∷ delete_where (watches lib.id) s.watchers;
      catchup = remove_id lib.id s.catchup;
      next_number = suc s.next_number;
    })

-- The existing watcher, unless it is healthy, is stopped and its scan noted.
abbrev pub stop_watch : Library → Watch → MonitorState → MonitorState
stop_watch lib w s = record s {
  watchers = delete_where (watches lib.id) s.watchers;
  stopped = s.stopped ++ w.number ∷ [];
  catchup = insert_id lib.id s.catchup;
}

abbrev pub watch_again : Outside → Library → Option Watch → MonitorState → MonitorState
watch_again out lib none s = start_watcher lib (out.start lib) s
watch_again out lib (some w) s =
    if out.is_healthy w then s else start_watcher lib (out.start lib) (stop_watch lib w s)

unfoldable pub reconcile_library : Bool → Outside → Library → MonitorState → MonitorState
unfolding delete_where
reconcile_library global out lib s =
    if not lib.watch_enabled
    then set_status lib.id (text "disabled") s
    else if not global || not (out.is_local_fs lib.path)
    then set_status lib.id (text "polling") s
    else watch_again out lib (find_first (watches lib.id) s.watchers) s

unfoldable pub reconcile_all : Bool → Outside → List Library → MonitorState → MonitorState
unfolding reconcile_library
reconcile_all global out [] s = s
reconcile_all global out (lib ∷ libs) s =
    reconcile_all global out libs (reconcile_library global out lib s)

unfoldable pub reconcile : Bool → Outside → List Library → MonitorState → MonitorState
unfolding drop_unwanted drop_forgotten reconcile_all
reconcile global out libs s =
    reconcile_all global out libs (drop_forgotten libs (drop_unwanted global out libs s.watchers s))

-- `stopAll`
unfoldable pub stop_all : MonitorState → MonitorState
stop_all s = record s { watchers = []; stopped = s.stopped ++ map (λ w. w.number) s.watchers }
