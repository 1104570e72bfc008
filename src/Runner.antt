-- ===== src/Runner.antt =====
-- internal/jobs/runner.go: what a worker does with a job that it claimed.
pub mod Execute
pub mod Reports
pub mod Drain
pub mod System
pub mod Files
use muxprune.Base.{
  ℕ, zero, suc, ◌+◌, Bool, true, false, not, ◌&&◌, ◌||◌, Option, none, some, List, [], ◌∷◌, ◌++◌,
  Text, text, is_empty, ℤ, pos, eq_ℤ, leb, ltb, ◌==◌, Outcome, ok, err, Float, if◌then◌else◌,
  length, take, join, show_nat,
}
use muxprune.Engine.{EngineError, EngineResult, Tools, is_skipped}
use muxprune.Engine.Io.{FileInfo, Fs, Os}
use muxprune.Engine.External.{Roots}
use muxprune.Engine.Recycle.{Calls}
use muxprune.Store.Jobs.{
  Job, Jobs, JobType, Status, done, failed, skipped, cancelled, media_file_id, finish_job,
  claim_next_job,
}

-- A row of `libraries`, as far as the runner reads it.
pub record Library : Type 0 where
  pub id : ℕ
  pub name : Text

-- What the runner calls: the engine's tools and settings, the other tables of the store, and the
-- scanner. A text is an error, and `message` is `Error()`.
pub record Deps : Type 0 where
  pub os : Os
  pub calls : Calls
  pub tools : Tools
  pub roots : Roots
  pub recycle_dir : Text
  pub stamp : Text
  pub rounds : ℕ
  pub message : EngineError → Text
  -- `os.Stat` on the file of a job, or its error; the mtime in seconds
  pub stat_seconds : Fs → Text → Outcome Text (ℕ × ℤ)
  pub policy_proceeds : ℕ → Bool
  pub delete_sidecar_row : ℕ → Option Text
  pub get_library : ℕ → Outcome Text (Option Library)
  pub list_libraries : Outcome Text (List Library)
  pub scan_library : Library → Option Text
  pub mark_scanned : ℕ → Option Text
  -- `ctx.Err()` before the scan of each library
  pub stopped : Library → Option Text

-- What `execute` returns.
pub record Report : Type 0 where
  pub status : Status
  pub log : Text
  pub saved : ℤ

abbrev pub failure : Text → Report
failure log = record { status = failed; log = log; saved = pos 0 }

-- `finalStatus`
unfoldable pub final_status : Bool → Bool → Report → Report
final_status was_cancelled killed r =
    if was_cancelled && not (elim r.status [ done ↦ true | _ ↦ false ])
    then record r { status = cancelled; log = text "cancelled by user" }
    else if killed && elim r.status [ failed ↦ true | _ ↦ false ]
    then record r { status = cancelled; log = text "cancelled by shutdown" }
    else r

abbrev pub max_job_log : ℕ
max_job_log = 4000

unfoldable pub clamp_log : Text → Text
clamp_log s = if leb (length s) max_job_log then s else take max_job_log s ++ text " ...[truncated]"

-- `staleFingerprint`: the empty text where the file is as it was when the job was made.
abbrev pub compare_stamp : ℕ → ℤ → Outcome Text (ℕ × ℤ) → Text
compare_stamp size mtime (err e) = e
compare_stamp size mtime (ok (s, m)) =
    if not (s == size) || not (eq_ℤ m mtime)
    then text "file changed since this job was queued; re-select tracks"
    else []

unfoldable pub stale_fingerprint : Deps → Fs → Job → Text
stale_fingerprint deps fs j = elim j.file_size [
  | none ↦ []
  | some size ↦ elim j.file_mtime [
    | none ↦ []
    | some mtime ↦ compare_stamp size mtime (deps.stat_seconds fs j.file_path)
  ]
]

abbrev pub allow_hardlink : Deps → Job → Bool → Bool
allow_hardlink deps j requested = requested || deps.policy_proceeds (media_file_id j)

abbrev pub is_file_job : JobType → Bool
is_file_job JobType.remux = true
is_file_job JobType.edit_metadata = true
is_file_job JobType.reorder_tracks = true
is_file_job JobType.merge_tracks = true
is_file_job _ = false

abbrev pub bad_payload : Text → Report
bad_payload t = failure (text "bad payload: " ++ t)

-- The report on an operation of the engine: an error that wraps `ErrSkipped` is no failure.
abbrev pub report_of : Deps → Outcome EngineError EngineResult × Fs → Report × Fs
report_of deps (ok r, fs) =
    (record { status = done; log = r.tool ++ (text ": " ++ r.command); saved = r.bytes_saved }, fs)
report_of deps (err e, fs) = (
  record { status = if is_skipped e then skipped else failed; log = deps.message e; saved = pos 0 },
  fs,
)

abbrev pub row_warning : Deps → ℕ → Text
row_warning deps i = if i == 0 then [] else elim (deps.delete_sidecar_row i) [
  | none ↦ []
  | some e ↦ text " | warning: sidecar db row not removed: " ++ e
]

abbrev pub sidecar_report : Deps → ℕ → Outcome EngineError EngineResult × Fs → Report × Fs
sidecar_report deps i (ok r, fs) =
    (record { status = done; log = r.command ++ row_warning deps i; saved = r.bytes_saved }, fs)
sidecar_report deps i (err e, fs) = (failure (deps.message e), fs)

-- `scan_library`
abbrev pub stamp_warning : Deps → ℕ → Text
stamp_warning deps i = elim (deps.mark_scanned i) [
  | none ↦ []
  | some e ↦ text " | warning: last-scanned stamp failed: " ++ e
]

abbrev pub scan_report : Deps → ℕ → Outcome Text (Option Library) → Report
scan_report deps i (err e) = failure (text "db error: " ++ e)
scan_report deps i (ok none) = failure (text "library " ++ (show_nat i ++ text " not found"))
scan_report deps i (ok (some lib)) = elim (deps.scan_library lib) [
  | some e ↦ failure (e ++ stamp_warning deps lib.id)
  | none ↦ record {
    status = done;
    log = text "scanned library: " ++ (lib.name ++ stamp_warning deps lib.id);
    saved = pos 0;
  }
]

-- What the loop of `scan_all` gathers: the libraries scanned, those that failed, and those whose
-- stamp failed; or the error of a context that has ended.
pub record Gathered : Type 0 where
  pub scanned : List Text
  pub failed_libs : List Text
  pub stamp_warns : List Text

abbrev pub warn_stamp : Deps → Library → List Text → List Text
warn_stamp deps lib warns = elim (deps.mark_scanned lib.id) [
  | none ↦ warns
  | some _ ↦ lib.name ∷ warns
]

abbrev pub gather_one : Deps → Library → Gathered → Gathered
gather_one deps lib g =
    let warned = warn_stamp deps lib g.stamp_warns in
    elim (deps.scan_library lib) [
      | some e ↦ record g {
        failed_libs = (lib.name ++ (text ": " ++ e)) ∷ g.failed_libs;
        stamp_warns = warned;
      }
      | none ↦ record g { scanned = lib.name ∷ g.scanned; stamp_warns = warned }
    ]

unfoldable pub gather : Deps → List Library → Outcome Text Gathered
gather deps [] = ok (record { scanned = []; failed_libs = []; stamp_warns = [] })
gather deps (lib ∷ libs) =
    let rest = gather deps libs in
    elim (deps.stopped lib) [
      | some e ↦ err e
      | none ↦ elim rest [ err e ↦ err e | ok g ↦ ok (gather_one deps lib g) ]
    ]

abbrev pub listed : Text → Text → List Text → Text
listed before sep [] = []
listed before sep (x ∷ xs) = before ++ join sep (x ∷ xs)

abbrev pub gathered_log : Gathered → Text
gathered_log g =
    text "scanned: "
    ++ (join (text ", ") g.scanned
        ++ (listed (text " | failed: ") (text "; ") g.failed_libs
            ++ listed (text " | warning: last-scanned stamp failed: ") (text ", ") g.stamp_warns))

abbrev pub gathered_report : Outcome Text Gathered → Report
gathered_report (err e) = failure e
gathered_report (ok g) =
    if length g.scanned == 0 && ltb 0 (length g.failed_libs)
    then failure (gathered_log g)
    else record { status = done; log = gathered_log g; saved = pos 0 }

abbrev pub scan_all_report : Deps → Outcome Text (List Library) → Report
scan_all_report deps (err e) = failure (text "db error: " ++ e)
scan_all_report deps (ok libs) = gathered_report (gather deps libs)
