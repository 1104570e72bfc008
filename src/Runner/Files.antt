-- ===== src/Runner/Files.antt =====
-- What a job that ends without success does to the files.
use muxprune.Base.{
  ◌≡◌, ◌≢◌, refl, Bool, true, false, List, Text, ℤ, Outcome, ok, err, Float, Bool-cases, inl, inr,
}
use muxprune.Probe.{Stream}
use muxprune.Engine.{EngineError, EngineResult, with_output}
use muxprune.Engine.Io.{Fs}
use muxprune.Engine.Remux.{reorder_args, merge_args}
use muxprune.Engine.Frame.{failed}
use muxprune.Engine.Clean.{KeepsFiles}
use muxprune.Engine.Untouched.{WritesOutputOnly}
use muxprune.Engine.Failure.{
  remove_tracks-FailsClean, reorder_tracks-FailsClean, merge_tracks-FailsClean,
}
use muxprune.Store.Payload.{decode_remux, decode_reorder, decode_merge}
use muxprune.Store.Jobs.{Job, JobType, done}
use muxprune.Runner.{Deps, Report, report_of}
use muxprune.Runner.Execute.{
  with_payload, do_remux, do_reorder, do_merge, execute_type, is_stale, execute,
}

-- The jobs that replace a file by a remux of it.
abbrev pub is_remux_job : JobType → Bool
is_remux_job JobType.remux = true
is_remux_job JobType.reorder_tracks = true
is_remux_job JobType.merge_tracks = true
is_remux_job _ = false

-- The tools write their output only, and temporary names are new.
pub record ToolsBehave (deps : Deps) : Type 0 where
  pub removal :
      (tool : Text) (args : List Text) → WritesOutputOnly deps.os tool (with_output tool args)
  pub reorder :
      (path : Text) (ss : List Stream) (order : List ℤ)
      → WritesOutputOnly deps.os deps.tools.mkvmerge (reorder_args path ss order)
  pub merge :
      (path : Text) (files : List Text)
      → WritesOutputOnly deps.os deps.tools.mkvmerge (merge_args path files)

-- Either the job is done, or the files that were there are as they were.
abbrev pub KeepsUnlessDone : Fs → Report × Fs → Type 0
KeepsUnlessDone fs r = r.0.status ≢ done → KeepsFiles fs r.1

report_of-KeepsUnlessDone :
    (deps : Deps) (fs : Fs) (r : Outcome EngineError EngineResult × Fs)
    → (failed r.0 ≡ true → KeepsFiles fs r.1)
    → KeepsUnlessDone fs (report_of deps r)
report_of-KeepsUnlessDone deps fs (ok r, fs') h n = absurd (n refl)
report_of-KeepsUnlessDone deps fs (err e, fs') h n = h refl

with_payload-KeepsUnlessDone :
    {P : Type 0} (r : Outcome Text P) (k : P → Fs → Report × Fs) (fs : Fs)
    → ((p : P) → KeepsUnlessDone fs (k p fs))
    → KeepsUnlessDone fs (with_payload r k fs)
with_payload-KeepsUnlessDone (err e) k fs h n = λ p there. refl
with_payload-KeepsUnlessDone (ok p) k fs h n = h p n

module _ {D : Type 0} (f : Float D) (deps : Deps) (b : ToolsBehave deps) (j : Job) (fs : Fs) where
  execute_type-KeepsUnlessDone :
      (t : JobType) → is_remux_job t ≡ true → KeepsUnlessDone fs (execute_type f deps j t fs)
  unfolding execute_type
  execute_type-KeepsUnlessDone JobType.remux _ =
      with_payload-KeepsUnlessDone (decode_remux j.payload) (do_remux f deps j) fs λ p.
        report_of-KeepsUnlessDone deps fs _
          ((remove_tracks-FailsClean f deps.os deps.tools j.file_path _ _ b.removal).at fs)
  execute_type-KeepsUnlessDone JobType.reorder_tracks _ =
      with_payload-KeepsUnlessDone (decode_reorder j.payload) (do_reorder f deps j) fs λ p.
        report_of-KeepsUnlessDone deps fs _ (
          (reorder_tracks-FailsClean f deps.os deps.tools j.file_path p.track_order _
              (λ ss. b.reorder j.file_path ss p.track_order)).at
            fs)
  execute_type-KeepsUnlessDone JobType.merge_tracks _ =
      with_payload-KeepsUnlessDone (decode_merge j.payload) (do_merge f deps j) fs λ p.
        report_of-KeepsUnlessDone deps fs _ (
          (merge_tracks-FailsClean f deps.os deps.tools deps.roots j.file_path p.external_files _
              (b.merge j.file_path p.external_files)).at
            fs)
  execute_type-KeepsUnlessDone JobType.edit_metadata h = absurd (cc h)
  execute_type-KeepsUnlessDone JobType.delete_sidecar h = absurd (cc h)
  execute_type-KeepsUnlessDone JobType.scan_library h = absurd (cc h)
  execute_type-KeepsUnlessDone JobType.scan_all h = absurd (cc h)
  execute_type-KeepsUnlessDone (JobType.other_type t) h = absurd (cc h)

  -- A job that removes, reorders or merges tracks and is not done at its end, be it stale, refused,
  -- skipped or failed, has left every file that was there as it was, provided that the tools write
  -- their output only and temporary names are new.
  pub execute-KeepsUnlessDone :
      is_remux_job j.type ≡ true → KeepsUnlessDone fs (execute f deps j fs)
  unfolding execute
  execute-KeepsUnlessDone h = elim (Bool-cases (is_stale deps fs j)) [
    | inl e ↦ rw e (λ n p there. refl)
    | inr e ↦ rw e (execute_type-KeepsUnlessDone j.type h)
  ]
