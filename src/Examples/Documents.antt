-- ===== src/Examples/Documents.antt =====
-- Edits of metadata, and files for a merge.
use muxprune.Base.{
  ℕ, ◌<◌, ◌≡◌, refl, true, false, Option, none, some, List, [], ◌∷◌, Text, text, ℤ, pos, Outcome,
  ok, err, length, All,
}
use muxprune.Engine.{Tools}
use muxprune.Engine.External.{resolved, validate_external_files}
use muxprune.Engine.External.Mergeable.{AllMergeable, validate_external_files-AllMergeable}
use muxprune.Engine.Edit.{valid_language_tag, edit_metadata}
use muxprune.Engine.Edit.Checked.{EditEffect, edit_metadata-EditEffect}
use muxprune.Store.Payload.{MetadataEdit}
use muxprune.Examples.Tracks.{wholes}
use muxprune.Examples.Machine.{machine, movie, disk, tools}

tag_passes : valid_language_tag (text "pt-BR") ≡ true
unfolding valid_language_tag muxprune.Base.exists_in muxprune.Base.split_on muxprune.Base.is_empty
tag_passes = refl

abbrev editors : Tools
editors = record tools { mkvpropedit = text "mkvpropedit" }

abbrev edits : List MetadataEdit
edits =
    record {
      track_index = pos 1;
      language = text "pt-BR";
      title = some [];
      default = some true;
      forced = none;
    }
    ∷ []

edit_metadata-EditEffect_example :
    EditEffect wholes machine editors movie edits disk
      (edit_metadata wholes machine editors movie edits false disk).1
edit_metadata-EditEffect_example =
    edit_metadata-EditEffect wholes machine editors movie edits false disk

abbrev roots : Option (List Text)
roots = some (text " /m " ∷ [] ∷ [])

passes : validate_external_files machine disk roots (text "/m/b.mkv") (movie ∷ []) ≡ ok tt
unfolding validate_external_files muxprune.Base.text_eq muxprune.Base.exists_in
    muxprune.Engine.External.path_within muxprune.Engine.External.resolve_roots
    muxprune.Base.is_empty muxprune.Engine.Replace.trim_space muxprune.Engine.External.real_path
    muxprune.Base.has_prefix muxprune.Base.trim_suffix muxprune.Base.has_suffix muxprune.Base.base
passes = refl

validate_external_files-AllMergeable_example :
    (abs_path : Text) × (machine.abs (text "/m/b.mkv") ≡ ok abs_path)
    × AllMergeable machine disk abs_path (resolved machine disk roots) [] (movie ∷ [])
validate_external_files-AllMergeable_example =
    validate_external_files-AllMergeable machine disk roots (text "/m/b.mkv") (movie ∷ []) passes
