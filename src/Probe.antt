-- ===== src/Probe.antt =====
-- internal/probe/probe.go: what ffprobe and mkvmerge report of a media file. The JSON documents are
-- records; `none` stands for a document that `json.Unmarshal` refuses.
pub mod Align
pub mod Parse
pub mod Run
use muxprune.Base.{
  ℕ, suc, ◌+◌, Bool, true, false, not, ◌&&◌, ◌||◌, Option, none, some, List, [], ◌∷◌, ◌++◌, map,
  String, Text, text, text_eq, has_prefix, to_lower, is_empty, ℤ, pos, minus_one, ltb_ℤ, eq_ℤ, ltb,
  ◌==◌, Float, if◌then◌else◌, length, keep_if, find_first, get_elem?,
}

pub record Stream : Type 0 where
  pub index : ℤ
  pub mkv_id : ℤ
  pub type : Text
  pub codec : Text
  pub lang : Text
  pub title : Text
  pub channels : ℤ
  pub channel_layout : Text
  pub default : Bool
  pub forced : Bool
  pub bit_rate : ℤ

pub record Result (D : Type 0) : Type 0 where
  pub path : Text
  pub format : Text
  pub duration : D
  pub size : ℤ
  pub streams : List Stream

abbrev pub video : Text
video = text "video"

abbrev pub audio : Text
audio = text "audio"

abbrev pub subtitle : Text
subtitle = text "subtitle"

-- `strings.Contains(s, part)`
unfoldable pub contains : Text → Text → Bool
contains [] part = has_prefix [] part
contains (c ∷ s) part = has_prefix (c ∷ s) part || contains s part

unfoldable pub is_matroska : {D : Type 0} → Result D → Bool
is_matroska r = contains r.format (text "matroska")

-- `StreamsOfType`
abbrev pub of_type : Text → Stream → Bool
of_type t s = text_eq s.type t

abbrev pub streams_of_type : Text → List Stream → List Stream
streams_of_type t ss = keep_if (of_type t) ss

abbrev pub count_of_type : Text → List Stream → ℕ
count_of_type t ss = length (streams_of_type t ss)

-- `SafePathArg`: a relative path cannot be read as an option.
unfoldable pub safe_path_arg : Text → Text
safe_path_arg path = if has_prefix path (text "/") then path else text "./" ++ path

pub record MkvTrack : Type 0 where
  pub id : ℤ
  pub type : Text
  pub language : Text
  pub codec_id : Text

-- `typeMap`, from mkvmerge's word to ffprobe's.
unfoldable pub ff_type : Text → Option Text
ff_type t =
    if text_eq t (text "video")
    then some video
    else if text_eq t (text "audio")
    then some audio
    else if text_eq t (text "subtitles")
    then some subtitle
    else none

abbrev is_track_of : Text → MkvTrack → Bool
is_track_of t k = elim (ff_type k.type) [ none ↦ false | some ft ↦ text_eq ft t ]

-- `tracks[t]`
unfoldable pub tracks_of : List MkvTrack → Text → List MkvTrack
tracks_of ident t = keep_if (is_track_of t) ident

unfoldable pub langs_compatible : Text → Text → Bool
langs_compatible a b = if is_empty a || is_empty b then true else text_eq a b

abbrev pub mkv_codec_names : List (Text × Text)
mkv_codec_names =
    (text "V_MPEG4/ISO/AVC", text "h264")
    ∷ (text "V_MPEGH/ISO/HEVC", text "hevc")
    ∷ (text "V_AV1", text "av1")
    ∷ (text "V_VP9", text "vp9")
    ∷ (text "V_VP8", text "vp8")
    ∷ (text "V_MPEG2", text "mpeg2video")
    ∷ (text "A_AAC", text "aac")
    ∷ (text "A_AC3", text "ac3")
    ∷ (text "A_EAC3", text "eac3")
    ∷ (text "A_DTS", text "dts")
    ∷ (text "A_TRUEHD", text "truehd")
    ∷ (text "A_FLAC", text "flac")
    ∷ (text "A_OPUS", text "opus")
    ∷ (text "A_VORBIS", text "vorbis")
    ∷ (text "A_MPEG/L3", text "mp3")
    ∷ (text "S_TEXT/UTF8", text "subrip")
    ∷ (text "S_TEXT/ASS", text "ass")
    ∷ (text "S_TEXT/SSA", text "ass")
    ∷ (text "S_TEXT/WEBVTT", text "webvtt")
    ∷ (text "S_HDMV/PGS", text "hdmv_pgs_subtitle")
    ∷ (text "S_VOBSUB", text "dvd_subtitle")
    ∷ []

unfoldable pub lookup_text : Text → List (Text × Text) → Option Text
lookup_text k [] = none
lookup_text k ((j, v) ∷ m) = if text_eq j k then some v else lookup_text k m

-- `strings.EqualFold`, for the ASCII names that the table holds.
abbrev pub equal_fold : Text → Text → Bool
equal_fold a b = text_eq (to_lower a) (to_lower b)

unfoldable pub codecs_compatible : Text → Text → Bool
codecs_compatible mkv ff =
    if is_empty mkv || is_empty ff
    then true
    else elim (lookup_text mkv mkv_codec_names) [ none ↦ true | some want ↦ equal_fold want ff ]

pub data AlignError : Type 0 where
  lang_mismatch : Text → ℕ → Text → Text → AlignError
  codec_mismatch : Text → ℕ → Text → Text → AlignError
  count_mismatch : Text → ℕ → ℕ → AlignError

-- The map `seen`, from a type to the streams of it met so far.
abbrev pub Seen : Type 0
Seen = Text → ℕ

abbrev pub bump : Seen → Text → Seen
bump seen k t = if text_eq k t then suc (seen t) else seen t

abbrev pub push : Stream → List Stream × Option AlignError → List Stream × Option AlignError
push s (ss, e) = (s ∷ ss, e)

-- The first loop of `alignMkvIDs`. It writes through `res`, so what was written before an error
-- stays written.
unfoldable pub align_loop :
    (Text → List MkvTrack) → Seen → List Stream → List Stream × Option AlignError
align_loop tracks seen [] = ([], none)
align_loop tracks seen (s ∷ ss) =
    let rest = align_loop tracks (bump seen s.type) ss in
    let pos = seen s.type in
    elim (get_elem? (tracks s.type) pos) [
      | none ↦ push s rest
      | some k ↦
          (let s' = record s { mkv_id = k.id } in
            if not (langs_compatible s.lang k.language)
            then (s' ∷ ss, some (lang_mismatch s.type pos s.lang k.language))
            else if not (codecs_compatible k.codec_id s.codec)
            then (s' ∷ ss, some (codec_mismatch s.type pos s.codec k.codec_id))
            else push s' rest)
    ]

-- The second loop: the counts of each type.
unfoldable pub count_check : (Text → List MkvTrack) → List Stream → List Text → Option AlignError
count_check tracks ss [] = none
count_check tracks ss (t ∷ ts) =
    let rest = count_check tracks ss ts in
    if length (tracks t) == count_of_type t ss
    then rest
    else some (count_mismatch t (length (tracks t)) (count_of_type t ss))

abbrev pub track_types : List Text
track_types = video ∷ audio ∷ subtitle ∷ []

abbrev pub after_loop :
    (Text → List MkvTrack) → List Stream × Option AlignError → List Stream × Option AlignError
after_loop tracks (ss, some e) = (ss, some e)
after_loop tracks (ss, none) = (ss, count_check tracks ss track_types)

unfoldable pub align_mkv_ids : List MkvTrack → List Stream → List Stream × Option AlignError
align_mkv_ids ident ss = after_loop (tracks_of ident) (align_loop (tracks_of ident) (λ _. 0) ss)

abbrev pub forget_id : Stream → Stream
forget_id s = record s { mkv_id = minus_one }

abbrev pub keep_aligned : List Stream × Option AlignError → List Stream
keep_aligned (ss, none) = ss
keep_aligned (ss, some e) = map forget_id ss

-- The end of `Probe`: the streams of a Matroska file get their track numbers. `ident` is what
-- `mkvmerge -J` printed, `none` if it failed or its JSON was refused. Any error of the alignment
-- takes all numbers away.
unfoldable pub attach_mkv_ids : Option (List MkvTrack) → List Stream → List Stream
attach_mkv_ids none ss = map forget_id ss
attach_mkv_ids (some ident) ss = keep_aligned (align_mkv_ids ident ss)
