-- ===== src/Engine/Failure.antt =====
-- `RemoveTracks`, `ReorderTracks` and `MergeTracks` when they fail, and when they only try.
use muxprune.Base.{
  ◌≡◌, refl, Bool, true, not, List, arith, ℤ, Text, text, is_empty, Float, length, ◌==◌, base, dir,
}
use muxprune.Probe.{Stream, is_matroska}
use muxprune.Engine.{
  tool_missing, no_track_order, no_external_files, not_matroska, Tools, RemovalSpec, Options,
  with_output, verify_result, verify_merge_result,
}
use muxprune.Engine.Io.{FileInfo, Os, lift}
use muxprune.Engine.Replace.{stat_replaceable, check_space}
use muxprune.Engine.Remux.{
  mkvmerge_result, check_reorder, check_visible, probe_at, remove_tracks, reorder_tracks,
  merge_tracks, prepare_removal, reorder_args, merge_args, no_removal,
}
use muxprune.Engine.External.{Roots, validate_external_files}
use muxprune.Engine.Clean.{
  ReadsOnly, FailsClean, ReadsOnly-bind, ReadsOnly-lift, ReadsOnly-throw_if, ReadsOnly-pure,
  FailsClean-bind, FailsClean-pure, FailsClean-if, FailsClean-bind-pure,
}
use muxprune.Engine.Untouched.{WritesOutputOnly, remux-FailsClean}

pub probe_at-ReadsOnly :
    {D : Type 0} (f : Float D) (os : Os) (path : Text)
    → ReadsOnly (probe_at {D = D} ⦃f = f⦄ os path)
probe_at-ReadsOnly f os path = record { at = λ fs. ground arith }

pub stat_replaceable-ReadsOnly :
    (path : Text) (allow : Bool) → ReadsOnly (stat_replaceable path allow)
unfolding stat_replaceable
stat_replaceable-ReadsOnly path allow = record { at = λ fs. ground arith }

check_space-ReadsOnly : (os : Os) (d : Text) (info : FileInfo) → ReadsOnly (check_space os d info)
unfolding check_space
check_space-ReadsOnly os d info = record { at = λ fs. ground arith }

pub prepare_removal-ReadsOnly :
    {D : Type 0} (f : Float D) (os : Os) (tools : Tools) (path : Text) (spec : RemovalSpec)
    (opts : Options)
    → ReadsOnly (prepare_removal ⦃f = f⦄ os tools path spec opts)
unfolding prepare_removal
prepare_removal-ReadsOnly f os tools path spec opts =
    ReadsOnly-bind _ _ (ReadsOnly-throw_if _ _) λ _.
      ReadsOnly-bind _ _ (stat_replaceable-ReadsOnly path opts.allow_hardlink) λ info.
        ReadsOnly-bind _ _ (probe_at-ReadsOnly f os path) λ res.
          ReadsOnly-bind _ _ (ReadsOnly-lift _) λ _.
            ReadsOnly-bind _ _ (check_space-ReadsOnly os (dir path) info)
              λ _. ReadsOnly-bind _ _ (ReadsOnly-lift _) λ built. ReadsOnly-pure _

-- A removal of tracks that returns an error, at whatever point, leaves every file that was there as
-- it was, the original included, provided that the tools write their output only and temporary
-- names are new.
pub remove_tracks-FailsClean :
    {D : Type 0} (f : Float D) (os : Os) (tools : Tools) (path : Text) (spec : RemovalSpec)
    (opts : Options)
    → ((tool : Text) (args : List Text) → WritesOutputOnly os tool (with_output tool args))
    → FailsClean (remove_tracks f os tools path spec opts)
unfolding remove_tracks
remove_tracks-FailsClean f os tools path spec opts w =
    FailsClean-bind _ _ (prepare_removal-ReadsOnly f os tools path spec opts) λ p.
      FailsClean-if opts.dry_run _ _ (FailsClean-pure _) (
        FailsClean-bind-pure _ _ (
          remux-FailsClean ⦃f = f⦄ os p.tool (with_output p.tool p.args) (w p.tool p.args)
            (base p.tool) path _ _ p.info))

-- A dry run writes nothing, whatever it returns.
pub remove_tracks-dry_run :
    {D : Type 0} (f : Float D) (os : Os) (tools : Tools) (path : Text) (spec : RemovalSpec)
    (opts : Options)
    → opts.dry_run ≡ true
    → ReadsOnly (remove_tracks f os tools path spec opts)
unfolding remove_tracks
remove_tracks-dry_run f os tools path spec opts dry =
    ReadsOnly-bind _ _ (prepare_removal-ReadsOnly f os tools path spec opts)
      λ p. rw dry (ReadsOnly-pure _)

-- A reordering that returns an error leaves every file that was there as it was, provided that
-- mkvmerge writes its output only and temporary names are new.
pub reorder_tracks-FailsClean :
    {D : Type 0} (f : Float D) (os : Os) (tools : Tools) (path : Text) (order : List ℤ)
    (allow_hardlink : Bool)
    → ((ss : List Stream) → WritesOutputOnly os tools.mkvmerge (reorder_args path ss order))
    → FailsClean (reorder_tracks f os tools path order allow_hardlink)
unfolding reorder_tracks
reorder_tracks-FailsClean f os tools path order allow_hardlink w =
    FailsClean-bind _ _
      (ReadsOnly-throw_if (is_empty tools.mkvmerge) (tool_missing (text "mkvmerge")))
      λ _. FailsClean-bind _ _ (ReadsOnly-throw_if (length order == 0) no_track_order) λ _.
        FailsClean-bind _ _ (stat_replaceable-ReadsOnly path allow_hardlink) λ info.
          FailsClean-bind _ _ (probe_at-ReadsOnly f os path) λ res.
            FailsClean-bind _ _ (ReadsOnly-throw_if (not (is_matroska res)) not_matroska) λ _.
              FailsClean-bind _ _ (ReadsOnly-lift (check_reorder res.streams order)) λ _.
                FailsClean-bind _ _ (check_space-ReadsOnly os (dir path) info) λ _.
                  FailsClean-bind-pure _
                    (mkvmerge_result tools.mkvmerge (reorder_args path res.streams order) info)
                    (remux-FailsClean ⦃f = f⦄ os tools.mkvmerge
                      (reorder_args path res.streams order) (w res.streams) (text "mkvmerge") path
                      true (verify_result ⦃f = f⦄ res no_removal) info)

external-ReadsOnly :
    (os : Os) (roots : Roots) (path : Text) (files : List Text)
    → ReadsOnly (λ fs. lift (validate_external_files os fs roots path files) fs)
external-ReadsOnly os roots path files = record { at = λ fs. refl }

-- A merge that returns an error leaves every file that was there as it was, provided that mkvmerge
-- writes its output only and temporary names are new.
pub merge_tracks-FailsClean :
    {D : Type 0} (f : Float D) (os : Os) (tools : Tools) (roots : Roots) (path : Text)
    (files : List Text) (allow_hardlink : Bool)
    → WritesOutputOnly os tools.mkvmerge (merge_args path files)
    → FailsClean (merge_tracks f os tools roots path files allow_hardlink)
unfolding merge_tracks
merge_tracks-FailsClean f os tools roots path files allow_hardlink w =
    FailsClean-bind _ _
      (ReadsOnly-throw_if (is_empty tools.mkvmerge) (tool_missing (text "mkvmerge")))
      λ _. FailsClean-bind _ _ (ReadsOnly-throw_if (length files == 0) no_external_files) λ _.
        FailsClean-bind _ _ (stat_replaceable-ReadsOnly path allow_hardlink) λ info.
          FailsClean-bind _ _ (probe_at-ReadsOnly f os path) λ res.
            FailsClean-bind _ _ (ReadsOnly-throw_if (not (is_matroska res)) not_matroska) λ _.
              FailsClean-bind _ _ (ReadsOnly-lift (check_visible res.streams)) λ _.
                FailsClean-bind _ _ (external-ReadsOnly os roots path files) λ _.
                  FailsClean-bind _ _ (check_space-ReadsOnly os (dir path) info) λ _.
                    FailsClean-bind-pure _
                      (mkvmerge_result tools.mkvmerge (merge_args path files) info)
                      (remux-FailsClean ⦃f = f⦄ os tools.mkvmerge (merge_args path files) w
                        (text "mkvmerge") path true (verify_merge_result ⦃f = f⦄ res) info)
