-- ===== src/Engine/Args.antt =====
-- The command lines of mkvmerge and ffmpeg.
use muxprune.Base.{
  ℕ, ◌+◌, Bool, true, false, not, ◌&&◌, ◌||◌, List, [], ◌∷◌, ◌++◌, map, Text, text, text_eq,
  to_lower, is_empty, ℤ, pos, minus_one, ltb_ℤ, eq_ℤ, ltb, ◌==◌, Outcome, ok, err, if◌then◌else◌,
  keep_if, exists_in, itoa, ext, base, join,
}
use muxprune.Probe.{
  Stream, Result, streams_of_type, is_matroska, safe_path_arg, audio, subtitle, contains,
}
use muxprune.Engine.Types.{RemovalSpec, Tools, EngineError, no_remux_tool}
use muxprune.Engine.Validate.{contains_int}

-- `mkvIDsKnown`
unfoldable pub mkv_ids_known : List Stream → Bool
mkv_ids_known ss = not (
    exists_in (λ s. (text_eq s.type audio || text_eq s.type subtitle) && ltb_ℤ s.mkv_id (pos 0)) ss)

-- The streams of a type that are not removed.
abbrev pub kept_streams : Text → List ℤ → List Stream → List Stream
kept_streams t removed ss = keep_if (λ s. not (contains_int removed s.index)) (streams_of_type t ss)

-- `keep` of `mkvmergeArgs`
abbrev pub keep_ids : Text → List ℤ → List Stream → List Text
keep_ids t removed ss = map (λ s. itoa s.mkv_id) (kept_streams t removed ss)

abbrev pub keep_args : Text → Text → List ℤ → List Text → List Text
keep_args none_flag flag [] ids = []
keep_args none_flag flag (_ ∷ _) [] = none_flag ∷ []
keep_args none_flag flag (_ ∷ _) (i ∷ ids) = flag ∷ join (text ",") (i ∷ ids) ∷ []

unfoldable pub mkvmerge_args : Text → List Stream → RemovalSpec → List Text
mkvmerge_args path ss spec =
    keep_args (text "--no-audio") (text "--audio-tracks") spec.audio_idx
      (keep_ids audio spec.audio_idx ss)
    ++ (keep_args (text "--no-subtitles") (text "--subtitle-tracks") spec.sub_idx
          (keep_ids subtitle spec.sub_idx ss)
        ++ safe_path_arg path ∷ [])

-- `pos` of `ffmpegArgs`: the position among the streams of the type, -1 if there is none.
unfoldable pub position_from : ℕ → List Stream → ℤ → ℤ
position_from p [] i = minus_one
position_from p (s ∷ ss) i =
    let rest = position_from (p + 1) ss i in if eq_ℤ s.index i then pos p else rest

abbrev pub position : Text → List Stream → ℤ → ℤ
position t ss i = position_from 0 (streams_of_type t ss) i

-- `sort.Strings`: bytewise.
unfoldable pub text_le : Text → Text → Bool
text_le [] t = true
text_le (c ∷ s) [] = false
text_le (c ∷ s) (d ∷ t) = if c == d then text_le s t else ltb c d

unfoldable pub insert_text : Text → List Text → List Text
unfolding text_le
insert_text x [] = x ∷ []
insert_text x (y ∷ ys) = let rest = insert_text x ys in if text_le x y then x ∷ y ∷ ys else y ∷ rest

unfoldable pub sort_texts : List Text → List Text
unfolding insert_text
sort_texts [] = []
sort_texts (x ∷ xs) = insert_text x (sort_texts xs)

abbrev pub map_flags : List Text → List Text
map_flags [] = []
map_flags (n ∷ ns) = text "-map" ∷ n ∷ map_flags ns

abbrev pub negative_maps : List Stream → RemovalSpec → List Text
negative_maps ss spec =
    map (λ i. text "-0:a:" ++ itoa (position audio ss i)) spec.audio_idx
    ++ map (λ i. text "-0:s:" ++ itoa (position subtitle ss i)) spec.sub_idx

unfoldable pub ffmpeg_args : Text → List Stream → RemovalSpec → List Text
unfolding sort_texts
ffmpeg_args path ss spec =
    let e = to_lower (ext path) in
    (text "-y"
      ∷ text "-v"
      ∷ text "error"
      ∷ text "-i"
      ∷ safe_path_arg path
      ∷ text "-map"
      ∷ text "0"
      ∷ [])
    ++ (map_flags (sort_texts (negative_maps ss spec))
        ++ (if text_eq e (text ".m4v") || text_eq e (text ".mp4")
            then text "-c" ∷ text "copy" ∷ text "-f" ∷ text "mp4" ∷ []
            else text "-c" ∷ text "copy" ∷ []))

unfoldable pub build_args :
    {D : Type 0} → Tools → Result D → RemovalSpec → Outcome EngineError (Text × List Text)
build_args tools res spec =
    if is_matroska res && (not (is_empty tools.mkvmerge) && mkv_ids_known res.streams)
    then ok (tools.mkvmerge, mkvmerge_args res.path res.streams spec)
    else if is_empty tools.ffmpeg
    then err no_remux_tool
    else ok (tools.ffmpeg, ffmpeg_args res.path res.streams spec)

abbrev pub is_mkvmerge : Text → Bool
is_mkvmerge tool = contains (base tool) (text "mkvmerge")

-- `reorderOutput(tool, append(args, outputArgs(tool, tmp)...), tmp)`
unfoldable pub with_output : Text → List Text → Text → List Text
with_output tool args tmp =
    if is_mkvmerge tool then text "-q" ∷ text "-o" ∷ tmp ∷ args else args ++ tmp ∷ []
