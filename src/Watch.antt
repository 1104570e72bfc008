-- ===== src/Watch.antt =====
-- internal/watch: the monitor that queues the scans of libraries, by the clock and as their files
-- change, and `enqueue` of cmd/muxprune/main.go, which it calls.
pub mod Due
pub mod Reconcile
pub mod Watcher
use muxprune.Base.{
  ℕ, ◌+◌, ◌-◌, ◌≡◌, Bool, true, false, not, ◌&&◌, ◌||◌, Option, none, some, List, [], ◌∷◌, Text, ℤ,
  pos, leb_ℤ, sub_ℕ, ◌==◌, if◌then◌else◌,
}
use muxprune.Store.Payload.{scan_payload}
use muxprune.Store.Jobs.{JobType, scan_library, is_scan_active, is_scan_queued}
use muxprune.Store.Tables.{Db, Library}
use muxprune.Store.Libraries.{get_library, list_libraries}
use muxprune.Store.Sidecars.{add_job}

-- `now-lib.LastScanFinishedAt >= int64(lib.AutoScanInterval)`
unfoldable pub due_for_scan : Library → ℕ → Bool
due_for_scan lib now =
    if leb_ℤ lib.auto_scan_interval (pos 0)
    then false
    else if lib.last_scan_finished_at == 0
    then true
    else leb_ℤ lib.auto_scan_interval (sub_ℕ now lib.last_scan_finished_at)

-- A scan of the library joins the queue, unless one waits there.
unfoldable pub enqueue : ℕ → ℕ → Db → Db
unfolding add_job get_library is_scan_queued
enqueue now i db = if is_scan_queued i db.jobs then db else elim (get_library i db) [
  | none ↦ db
  | some lib ↦
      (add_job now JobType.scan_library 0 lib.path (scan_payload (record { library_id = i })) db).1
]

abbrev pub tick_library : ℕ → Library → Db → Db
tick_library now lib db =
    if not (due_for_scan lib now) || is_scan_active lib.id db.jobs
    then db
    else enqueue now lib.id db

unfoldable pub tick_all : ℕ → List Library → Db → Db
unfolding due_for_scan enqueue is_scan_active
tick_all now [] db = db
tick_all now (lib ∷ libs) db = tick_all now libs (tick_library now lib db)

unfoldable pub tick : ℕ → Db → Db
unfolding tick_all list_libraries
tick now db = tick_all now (list_libraries db) db
