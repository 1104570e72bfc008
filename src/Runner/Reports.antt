-- ===== src/Runner/Reports.antt =====
-- What a run stores of a job, and what it does to the files.
use muxprune.Base.{
  ◌∙◌, ==_self, ℕ, zero, suc, ◌+◌, ◌≤◌, ◌≡◌, ◌≢◌, ◌⊎◌, refl, Bool, false, ◌&&◌, Option, none, some,
  List, [], ◌∷◌, arith, Text, text, pos, Outcome, ok, err, Float, Bool-cases, Option-cases, inl,
  inr, length, take, length-append, ltb, ◌==◌, leb,
}
use muxprune.Engine.{EngineError, EngineResult, is_skipped}
use muxprune.Engine.Io.{Fs}
use muxprune.Store.Payload.{decode_remux, decode_sidecar, decode_edit, decode_reorder, decode_merge}
use muxprune.Store.Jobs.{
  Job, Jobs, JobType, done, failed, skipped, is_active, get_job, finish_job, has_id,
}
use muxprune.Store.Jobs.Rows.{get_job-update_where, get_job-id, get_job-others}
use muxprune.Runner.{
  Deps, Report, Library, Gathered, failure, final_status, max_job_log, clamp_log, report_of,
  sidecar_report, scan_report, scan_all_report, gathered_report, gather,
}
use muxprune.Runner.Execute.{
  scan_payload_of, do_remux, do_edit, do_reorder, do_merge, do_sidecar, do_scan, with_payload,
  execute_type, is_stale, execute, settle, run,
}

-- What `execute` may return: nothing is saved by a job that is not done.
abbrev pub IsOutcome : Report → Type 0
IsOutcome r = (r.status ≡ done) ⊎ (((r.status ≡ failed) ⊎ (r.status ≡ skipped)) × (r.saved ≡ pos 0))

failure-IsOutcome : (t : Text) → IsOutcome (failure t)
failure-IsOutcome t = inr (inl refl, refl)

report_of-IsOutcome :
    (deps : Deps) (r : Outcome EngineError EngineResult × Fs) → IsOutcome (report_of deps r).0
report_of-IsOutcome deps (ok r, fs) = inl refl
report_of-IsOutcome deps (err e, fs) = elim (Bool-cases (is_skipped e)) [
  | inl s ↦ inr (inr (rw s refl), refl)
  | inr s ↦ inr (inl (rw s refl), refl)
]

sidecar_report-IsOutcome :
    (deps : Deps) (i : ℕ) (r : Outcome EngineError EngineResult × Fs)
    → IsOutcome (sidecar_report deps i r).0
sidecar_report-IsOutcome deps i (ok r, fs) = inl refl
sidecar_report-IsOutcome deps i (err e, fs) = failure-IsOutcome (deps.message e)

scan_report-IsOutcome :
    (deps : Deps) (i : ℕ) (r : Outcome Text (Option Library)) → IsOutcome (scan_report deps i r)
scan_report-IsOutcome deps i (err e) = inr (inl refl, refl)
scan_report-IsOutcome deps i (ok none) = inr (inl refl, refl)
scan_report-IsOutcome deps i (ok (some lib)) = elim (Option-cases (deps.scan_library lib)) [
  | inl e ↦ rw (e, scan_report) (inl refl)
  | inr (x, e) ↦ rw (e, scan_report) (inr (inl refl, refl))
]

gathered_report-IsOutcome : (r : Outcome Text Gathered) → IsOutcome (gathered_report r)
gathered_report-IsOutcome (err e) = failure-IsOutcome e
gathered_report-IsOutcome (ok g) =
    elim (Bool-cases (length g.scanned == 0 && ltb 0 (length g.failed_libs))) [
      | inl e ↦ rw e (inr (inl refl, refl))
      | inr e ↦ rw e (inl refl)
    ]

scan_all_report-IsOutcome :
    (deps : Deps) (r : Outcome Text (List Library)) → IsOutcome (scan_all_report deps r)
scan_all_report-IsOutcome deps (err e) = inr (inl refl, refl)
scan_all_report-IsOutcome deps (ok libs) = gathered_report-IsOutcome (gather deps libs)

with_payload-IsOutcome :
    {P : Type 0} (r : Outcome Text P) (k : P → Fs → Report × Fs) (fs : Fs)
    → ((p : P) → IsOutcome (k p fs).0)
    → IsOutcome (with_payload r k fs).0
with_payload-IsOutcome (err e) k fs h = inr (inl refl, refl)
with_payload-IsOutcome (ok p) k fs h = h p

module _ {D : Type 0} (f : Float D) (deps : Deps) where
  execute_type-IsOutcome :
      (j : Job) (t : JobType) (fs : Fs) → IsOutcome (execute_type f deps j t fs).0
  unfolding execute_type
  execute_type-IsOutcome j JobType.remux fs =
      with_payload-IsOutcome (decode_remux j.payload) (do_remux f deps j) fs
        λ p. report_of-IsOutcome deps _
  execute_type-IsOutcome j JobType.delete_sidecar fs =
      with_payload-IsOutcome (decode_sidecar j.payload) (do_sidecar deps) fs
        λ p. sidecar_report-IsOutcome deps p.sidecar_id _
  execute_type-IsOutcome j JobType.edit_metadata fs =
      with_payload-IsOutcome (decode_edit j.payload) (do_edit f deps j) fs
        λ p. report_of-IsOutcome deps _
  execute_type-IsOutcome j JobType.reorder_tracks fs =
      with_payload-IsOutcome (decode_reorder j.payload) (do_reorder f deps j) fs
        λ p. report_of-IsOutcome deps _
  execute_type-IsOutcome j JobType.merge_tracks fs =
      with_payload-IsOutcome (decode_merge j.payload) (do_merge f deps j) fs
        λ p. report_of-IsOutcome deps _
  execute_type-IsOutcome j JobType.scan_library fs =
      with_payload-IsOutcome (scan_payload_of j.payload) (do_scan deps) fs
        λ p. scan_report-IsOutcome deps p.library_id _
  execute_type-IsOutcome j JobType.scan_all fs = scan_all_report-IsOutcome deps deps.list_libraries
  execute_type-IsOutcome j (JobType.other_type t) fs = inr (inl refl, refl)

  execute-IsOutcome : (j : Job) (fs : Fs) → IsOutcome (execute f deps j fs).0
  unfolding execute
  execute-IsOutcome j fs = elim (Bool-cases (is_stale deps fs j)) [
    | inl e ↦ rw e (inr (inl refl, refl))
    | inr e ↦ rw e (execute_type-IsOutcome j j.type fs)
  ]

length-take : (n : ℕ) (s : Text) → length (take n s) ≤ n
length-take zero s = omega arith
length-take (suc n) [] = omega arith
length-take (suc n) (c ∷ s) = omega (arith, length-take n s)

length-clamp_log : (s : Text) → length (clamp_log s) ≤ max_job_log + 15
unfolding clamp_log
length-clamp_log s = elim (Bool-cases (leb (length s) max_job_log)) [
  | inl e ↦ rw e (ground arith)
  | inr e ↦ rw e (
      omega (
        arith,
        length-take max_job_log s,
        length-append (take max_job_log s) (text " ...[truncated]"),
      ))
]

-- What a run stores of a job: it is over, has saved nothing unless it is done, and its log is short.
pub record IsSettled (r : Report) : Type 0 where
  pub over : is_active r.status ≡ false
  pub nothing_saved : r.status ≢ done → r.saved ≡ pos 0
  pub short_log : length r.log ≤ max_job_log + 15

settle-status :
    (c k : Bool) (r : Report)
    → IsOutcome r
    → (is_active (settle c k r).status ≡ false)
      × ((settle c k r).status ≢ done → (settle c k r).saved ≡ pos 0)
unfolding settle final_status
settle-status c k r h = ground arith

pub settle-execute-IsSettled :
    {D : Type 0} (f : Float D) (deps : Deps) (was_cancelled killed : Bool) (j : Job) (fs : Fs)
    → IsSettled (settle was_cancelled killed (execute f deps j fs).0)
unfolding settle
settle-execute-IsSettled f deps c k j fs =
    let r = (execute f deps j fs).0 in
    let (o, n) = settle-status c k r (execute-IsOutcome f deps j fs) in
    record { over = o; nothing_saved = n; short_log = length-clamp_log (final_status c k r).log }

-- The row of a job after its run, for the row before it.
pub record RunStored (now : ℕ) (before after : Job) : Type 0 where
  pub over : is_active after.status ≡ false
  pub nothing_saved : after.status ≢ done → after.bytes_saved ≡ pos 0
  pub short_log : length after.log ≤ max_job_log + 15
  pub finished : after.finished_at ≡ now
  pub columns : after ≡ record before {
    status = after.status;
    log = after.log;
    bytes_saved = after.bytes_saved;
    finished_at = after.finished_at;
  }

-- After the run of a job that has a row, whatever the operation did: the row holds a final status,
-- no bytes saved unless it is done, a log of at most 4000 bytes and the mark of a cut, and the time
-- of the end; its other columns, and what every other identifier finds, are as they were.
pub run-RunStored :
    {D : Type 0} (f : Float D) (deps : Deps) (was_cancelled killed : Bool) (now : ℕ) (j row : Job)
    (fs : Fs) (js : Jobs)
    → get_job j.id js ≡ some row
    → (after : Job) × (get_job j.id (run f deps was_cancelled killed now j (fs, js)).1 ≡ some after)
      × RunStored now row after
      × ((i : ℕ)
          → i ≢ j.id
          → get_job i (run f deps was_cancelled killed now j (fs, js)).1 ≡ get_job i js)
unfolding run finish_job
run-RunStored f deps c k now j row fs js g =
    let s = settle c k (execute f deps j fs).0 in
    let settled = settle-execute-IsSettled f deps c k j fs in
    let stored : Job → Job =
      λ r. record r { status = s.status; log = s.log; bytes_saved = s.saved; finished_at = now } in
    (
      stored row,
      get_job-update_where (has_id j.id) stored (λ r. refl) j.id js
          ∙ rw g (rw (get_job-id j.id js g) (rw (==_self j.id) refl)),
      record {
        over = settled.over;
        nothing_saved = settled.nothing_saved;
        short_log = settled.short_log;
        finished = refl;
        columns = refl;
      },
      λ i ne. get_job-others j.id stored (λ r. refl) i js ne,
    )
