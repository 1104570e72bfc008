-- ===== src/Engine/Remux.antt =====
-- `RemoveTracks`, `ReorderTracks` and `MergeTracks`: guards, command line, subprocess,
-- verification, replacement.
use muxprune.Base.{
  ℕ, ◌-◌, Bool, true, false, not, ◌&&◌, ◌||◌, none, some, List, [], ◌∷◌, ◌++◌, map, Text, text,
  text_eq, is_empty, ℤ, pos, sub_ℕ, ltb_ℤ, ◌==◌, Outcome, ok, err, Float, if◌then◌else◌, length,
  keep_if, find_first, itoa, join, base, ext, dir, trim_suffix,
}
use muxprune.Probe.{Stream, Result, is_matroska, safe_path_arg, video, audio, subtitle}
use muxprune.Probe.Run.{probe}
use muxprune.Engine.{
  RemovalSpec, Options, EngineResult, Tools, EngineError, probe_error, verification_failed,
  nothing_to_remove, no_track_order, no_external_files, not_matroska, tool_missing, tool_failed,
  os_error, stream_not_found, stream_without_id, duplicate_stream, wrong_track_count,
  invisible_stream, spec_empty, normalise, contains_int, by_idx, validate, build_args, with_output,
  estimate_removed, verify_result, verify_merge_result,
}
use muxprune.Engine.Io.{FileInfo, Os, Io, Ran, pure, lift, throw_if, ◌>>=◌, ◌>>◌, with_cleanup}
use muxprune.Engine.Replace.{
  stat_replaceable, check_space, temp_path, wrap_nice, exec, warnings_only, succeeded, tail_of,
  replace_original,
}
use muxprune.Engine.External.{Roots, validate_external_files}

abbrev pub stat_output : Os → Text → Io FileInfo
stat_output os tmp fs = elim (os.stat fs tmp) [
  | none ↦ (err (os_error tmp), fs)
  | some i ↦ (ok i, fs)
]

-- The base name of the video without its extension.
abbrev pub stem_of : Text → Text
stem_of path = trim_suffix (base path) (ext path)

abbrev pub command_line : Text → List Text → Text
command_line tool args = tool ++ (text " " ++ join (text " ") args)

-- What `RemoveTracks` knows before it writes: the file, its streams, the tool and its arguments.
pub record Prepared (D : Type 0) : Type 0 where
  pub info : FileInfo
  pub probed : Result D
  pub tool : Text
  pub args : List Text

module _ {D : Type 0} ⦃f : Float D⦄ where
  abbrev pub probe_at : Os → Text → Io (Result D)
  probe_at os path fs = elim (probe (os.prober fs) path) [
    | ok r ↦ (ok r, fs)
    | err e ↦ (err (probe_error e), fs)
  ]

  -- `verify` and `verifyMerge`: the output is probed and held against the input.
  abbrev pub verify_with : Os → Text → (Result D → Outcome EngineError (Unit {0})) → Io (Unit {0})
  verify_with os tmp check fs = elim (probe (os.prober fs) tmp) [
    | err e ↦ (err (verification_failed (probe_error e)), fs)
    | ok out ↦ elim (check out) [ ok u ↦ (ok u, fs) | err e ↦ (err (verification_failed e), fs) ]
  ]

abbrev pub swap_step : Os → Text → Text → FileInfo → FileInfo → Io ℕ
swap_step os tmp path info out = do replace_original os tmp path info; pure out.size

abbrev pub stat_step : Os → Text → Text → FileInfo → Io ℕ
stat_step os tmp path info = do out ← stat_output os tmp; swap_step os tmp path info out

abbrev pub is_failure : Bool → Ran → Bool
is_failure tolerant r = not (succeeded r || (tolerant && warnings_only r))

-- The common end of the three operations: run the tool, verify what it wrote, put it in place of the
-- original. It returns the size of the output.
module _ {D : Type 0} ⦃f : Float D⦄ where
  abbrev pub verify_step :
      Os → (Result D → Outcome EngineError (Unit {0})) → Text → Text → FileInfo → Io ℕ
  verify_step os check tmp path info = do verify_with os tmp check; stat_step os tmp path info

  abbrev pub exit_step :
      Os
      → Text
      → Bool
      → (Result D → Outcome EngineError (Unit {0}))
      → Text
      → Text
      → FileInfo
      → Ran
      → Io ℕ
  exit_step os label tolerant check tmp path info r = do
    throw_if (is_failure tolerant r) (tool_failed label (tail_of r.stderr 1000))
    verify_step os check tmp path info

  unfoldable pub run_and_replace :
      Os
      → Text
      → Text × List Text
      → Bool
      → (Result D → Outcome EngineError (Unit {0}))
      → Text
      → Text
      → FileInfo
      → Io ℕ
  run_and_replace os label command tolerant check tmp path info = do
    r ← exec os command
    exit_step os label tolerant check tmp path info r

  unfoldable pub remux :
      Os
      → Text
      → Text
      → (Text → List Text)
      → Bool
      → (Result D → Outcome EngineError (Unit {0}))
      → Text
      → FileInfo
      → Io (Text × ℕ)
  unfolding run_and_replace
  remux os label tool args tolerant check path info = do
    tmp ← temp_path os (dir path) (stem_of path) (ext path)
    size ←
        with_cleanup os tmp
          (run_and_replace os label (wrap_nice os tool (args tmp)) tolerant check tmp path info)
    pure (tmp, size)

  unfoldable pub prepare_removal : Os → Tools → Text → RemovalSpec → Options → Io (Prepared D)
  prepare_removal os tools path spec opts = do
    throw_if (spec_empty spec) nothing_to_remove
    info ← stat_replaceable path opts.allow_hardlink
    res ← probe_at os path
    lift (validate res.streams (normalise spec) opts)
    check_space os (dir path) info
    built ← lift (build_args tools res (normalise spec))
    pure (record { info = info; probed = res; tool = built.0; args = built.1 })

abbrev pub dry_result : {D : Type 0} → Float D → RemovalSpec → Prepared D → EngineResult
dry_result f spec p = record {
  tool = base p.tool;
  command = command_line p.tool p.args;
  bytes_saved = estimate_removed ⦃f = f⦄ p.probed.duration p.probed.streams (normalise spec);
  dry_run = true;
}

abbrev pub removal_result : {D : Type 0} → Prepared D → Text × ℕ → EngineResult
removal_result p out = record {
  tool = base p.tool;
  command = command_line p.tool p.args;
  bytes_saved = sub_ℕ p.info.size out.1;
  dry_run = false;
}

abbrev pub removal_step :
    {D : Type 0} → Float D → Os → Tools → Text → RemovalSpec → Prepared D → Io EngineResult
removal_step f os tools path spec p = do
  out ←
      remux ⦃f = f⦄ os (base p.tool) p.tool (with_output p.tool p.args)
        (text_eq p.tool tools.mkvmerge) (verify_result ⦃f = f⦄ p.probed (normalise spec)) path
        p.info
  pure (removal_result p out)

unfoldable pub remove_tracks :
    {D : Type 0} → Float D → Os → Tools → Text → RemovalSpec → Options → Io EngineResult
unfolding prepare_removal remux
remove_tracks f os tools path spec opts = do
  p ← prepare_removal ⦃f = f⦄ os tools path spec opts
  if opts.dry_run then pure (dry_result f spec p) else removal_step f os tools path spec p

-- The loop of `ReorderTracks` over the order that was asked for.
unfoldable pub check_order : List Stream → List ℤ → List ℤ → Outcome EngineError (Unit {0})
check_order ss seen [] = ok tt
check_order ss seen (i ∷ is) =
    let rest = check_order ss (i ∷ seen) is in
    if contains_int seen i then err (duplicate_stream i) else elim (by_idx ss i) [
      | none ↦ err (stream_not_found i)
      | some s ↦ if ltb_ℤ s.mkv_id (pos 0) then err (stream_without_id i) else rest
    ]

abbrev pub numbered : List Stream → List Stream
numbered ss = keep_if (λ s. not (ltb_ℤ s.mkv_id (pos 0))) ss

unfoldable pub check_reorder : List Stream → List ℤ → Outcome EngineError (Unit {0})
unfolding check_order
check_reorder ss order =
    if length order == length (numbered ss)
    then check_order ss [] order
    else err (wrong_track_count (length (numbered ss)) (length order))

-- `0:mkvID1,0:mkvID2,...`; a missing key of the map would read as number 0.
abbrev pub order_part : List Stream → ℤ → Text
order_part ss i = text "0:" ++ itoa (elim (by_idx ss i) [ none ↦ pos 0 | some s ↦ s.mkv_id ])

abbrev pub track_order : List Stream → List ℤ → Text
track_order ss order = join (text ",") (map (order_part ss) order)

abbrev pub reorder_args : Text → List Stream → List ℤ → Text → List Text
reorder_args path ss order tmp =
    text "-q"
    ∷ text "-o"
    ∷ tmp
    ∷ text "--track-order"
    ∷ track_order ss order
    ∷ safe_path_arg path
    ∷ []

-- `saved < 0` is reported as 0: truncated subtraction.
abbrev pub saved_of : ℕ → ℕ → ℤ
saved_of before after = pos (before - after)

-- What both `ReorderTracks` and `MergeTracks` return; `out` is the temporary path and the new size.
abbrev pub mkvmerge_result : Text → (Text → List Text) → FileInfo → Text × ℕ → EngineResult
mkvmerge_result tool args info out = record {
  tool = text "mkvmerge";
  command = command_line tool (args out.0);
  bytes_saved = saved_of info.size out.1;
  dry_run = false;
}

abbrev pub no_removal : RemovalSpec
no_removal = record { audio_idx = []; sub_idx = [] }

abbrev pub merge_args : Text → List Text → Text → List Text
merge_args path files tmp =
    text "-q" ∷ text "-o" ∷ tmp ∷ safe_path_arg path ∷ map safe_path_arg files

-- A stream that mkvmerge does not see would be lost by a merge.
abbrev pub is_invisible : Stream → Bool
is_invisible s =
    (text_eq s.type video || (text_eq s.type audio || text_eq s.type subtitle))
    && ltb_ℤ s.mkv_id (pos 0)

unfoldable pub check_visible : List Stream → Outcome EngineError (Unit {0})
check_visible ss = elim (find_first is_invisible ss) [
  | none ↦ ok tt
  | some s ↦ err (invisible_stream s.index)
]

unfoldable pub reorder_tracks :
    {D : Type 0} → Float D → Os → Tools → Text → List ℤ → Bool → Io EngineResult
unfolding check_reorder remux
reorder_tracks {D} f os tools path order allow_hardlink = do
  throw_if (is_empty tools.mkvmerge) (tool_missing (text "mkvmerge"))
  throw_if (length order == 0) no_track_order
  info ← stat_replaceable path allow_hardlink
  res ← probe_at {D = D} ⦃f = f⦄ os path
  throw_if (not (is_matroska res)) not_matroska
  lift (check_reorder res.streams order)
  check_space os (dir path) info
  out ←
      remux ⦃f = f⦄ os (text "mkvmerge") tools.mkvmerge (reorder_args path res.streams order) true
        (verify_result ⦃f = f⦄ res no_removal) path info
  pure (mkvmerge_result tools.mkvmerge (reorder_args path res.streams order) info out)

unfoldable pub merge_tracks :
    {D : Type 0} → Float D → Os → Tools → Roots → Text → List Text → Bool → Io EngineResult
unfolding check_visible remux
merge_tracks {D} f os tools roots path files allow_hardlink = do
  throw_if (is_empty tools.mkvmerge) (tool_missing (text "mkvmerge"))
  throw_if (length files == 0) no_external_files
  info ← stat_replaceable path allow_hardlink
  res ← probe_at {D = D} ⦃f = f⦄ os path
  throw_if (not (is_matroska res)) not_matroska
  lift (check_visible res.streams)
  λ fs. lift (validate_external_files os fs roots path files) fs
  check_space os (dir path) info
  out ←
      remux ⦃f = f⦄ os (text "mkvmerge") tools.mkvmerge (merge_args path files) true
        (verify_merge_result ⦃f = f⦄ res) path info
  pure (mkvmerge_result tools.mkvmerge (merge_args path files) info out)
