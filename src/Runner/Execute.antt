-- ===== src/Runner/Execute.antt =====
-- `execute` and `run`: a job by its type, and what is stored of it.
use muxprune.Base.{
  ℕ, Bool, true, false, not, ◌&&◌, none, some, [], ◌++◌, Text, text, is_empty, pos, Outcome, ok,
  err, Float, if◌then◌else◌,
}
use muxprune.Engine.Io.{Fs}
use muxprune.Engine.Remux.{remove_tracks, reorder_tracks, merge_tracks}
use muxprune.Engine.Edit.{edit_metadata}
use muxprune.Engine.Recycle.{delete_sidecar}
use muxprune.Store.Payload.{
  Payload, RemuxPayload, SidecarPayload, EditMetadataPayload, ReorderPayload, MergePayload,
  ScanLibraryPayload, decode_remux, decode_sidecar, decode_edit, decode_reorder, decode_merge,
  decode_scan, malformed,
}
use muxprune.Store.Jobs.{Job, Jobs, JobType, Status, cancelled, finish_job}
use muxprune.Runner.{
  Deps, Report, failure, final_status, clamp_log, stale_fingerprint, allow_hardlink, is_file_job,
  bad_payload, report_of, sidecar_report, scan_report, scan_all_report,
}

-- A job whose payload is refused fails; the others go on.
abbrev pub with_payload : {P : Type 0} → Outcome Text P → (P → Fs → Report × Fs) → Fs → Report × Fs
with_payload (err e) k fs = (bad_payload e, fs)
with_payload (ok p) k fs = k p fs

abbrev pub scan_payload_of : Payload → Outcome Text ScanLibraryPayload
scan_payload_of (malformed t) = err t
scan_payload_of p = elim (decode_scan p) [ none ↦ err [] | some q ↦ ok q ]

-- The cases of the second `switch` of `execute`, once the payload is decoded. The refresh of the
-- file's row that follows a success is left to the scanner: it changes neither the file nor the
-- report.
module _ {D : Type 0} (f : Float D) (deps : Deps) (j : Job) where
  abbrev pub do_remux : RemuxPayload → Fs → Report × Fs
  do_remux p fs = report_of deps (
      remove_tracks f deps.os deps.tools j.file_path
        (record { audio_idx = p.audio_idx; sub_idx = p.sub_idx })
        (record {
          allow_hardlink = allow_hardlink deps j p.allow_hardlink;
          allow_last_audio = p.allow_last_audio;
          dry_run = false;
        })
        fs)

  abbrev pub do_edit : EditMetadataPayload → Fs → Report × Fs
  do_edit p fs =
      report_of deps (edit_metadata f deps.os deps.tools j.file_path p.edits p.allow_hardlink fs)

  abbrev pub do_reorder : ReorderPayload → Fs → Report × Fs
  do_reorder p fs = report_of deps (
      reorder_tracks f deps.os deps.tools j.file_path p.track_order
        (allow_hardlink deps j p.allow_hardlink) fs)

  abbrev pub do_merge : MergePayload → Fs → Report × Fs
  do_merge p fs = report_of deps (
      merge_tracks f deps.os deps.tools deps.roots j.file_path p.external_files
        (allow_hardlink deps j p.allow_hardlink) fs)

abbrev pub do_sidecar : Deps → SidecarPayload → Fs → Report × Fs
do_sidecar deps p fs =
    sidecar_report deps p.sidecar_id
      (delete_sidecar deps.os deps.calls deps.rounds deps.recycle_dir deps.stamp p.path false fs)

abbrev pub do_scan : Deps → ScanLibraryPayload → Fs → Report × Fs
do_scan deps p fs = (scan_report deps p.library_id (deps.get_library p.library_id), fs)

unfoldable pub execute_type : {D : Type 0} → Float D → Deps → Job → JobType → Fs → Report × Fs
execute_type f deps j JobType.remux fs =
    with_payload (decode_remux j.payload) (do_remux f deps j) fs
execute_type f deps j JobType.delete_sidecar fs =
    with_payload (decode_sidecar j.payload) (do_sidecar deps) fs
execute_type f deps j JobType.edit_metadata fs =
    with_payload (decode_edit j.payload) (do_edit f deps j) fs
execute_type f deps j JobType.reorder_tracks fs =
    with_payload (decode_reorder j.payload) (do_reorder f deps j) fs
execute_type f deps j JobType.merge_tracks fs =
    with_payload (decode_merge j.payload) (do_merge f deps j) fs
execute_type f deps j JobType.scan_library fs =
    with_payload (scan_payload_of j.payload) (do_scan deps) fs
execute_type f deps j JobType.scan_all fs = (scan_all_report deps deps.list_libraries, fs)
execute_type f deps j (JobType.other_type t) fs = (failure (text "unknown job type " ++ t), fs)

abbrev pub is_stale : Deps → Fs → Job → Bool
is_stale deps fs j = is_file_job j.type && not (is_empty (stale_fingerprint deps fs j))

unfoldable pub execute : {D : Type 0} → Float D → Deps → Job → Fs → Report × Fs
unfolding execute_type
execute f deps j fs =
    let executed = execute_type f deps j j.type fs in
    if is_stale deps fs j then (failure (stale_fingerprint deps fs j), fs) else executed

-- What `run` stores: the final status, nothing saved by a cancelled job, and a bounded log.
abbrev pub is_cancelled : Status → Bool
is_cancelled cancelled = true
is_cancelled _ = false

abbrev pub stored : Report → Report
stored r = record r {
  log = clamp_log r.log;
  saved = if is_cancelled r.status then pos 0 else r.saved;
}

unfoldable pub settle : Bool → Bool → Report → Report
unfolding final_status clamp_log
settle was_cancelled killed r = stored (final_status was_cancelled killed r)

-- `run`, on a job that was claimed: `was_cancelled` is whether `Cancel` was called for it, `killed`
-- whether its context had ended when it returned.
unfoldable pub run : {D : Type 0} → Float D → Deps → Bool → Bool → ℕ → Job → Fs × Jobs → Fs × Jobs
unfolding execute settle
run f deps was_cancelled killed now j (fs, js) =
    let (r, fs') = execute f deps j fs in
    let s = settle was_cancelled killed r in (fs', finish_job j.id s.status s.log s.saved now js)
