-- ===== src/Examples/Tracks.antt =====
-- Streams of a Matroska file, what mkvmerge reports of it, and whole numbers for floats.
use muxprune.Base.{
  ℕ, ◌≡◌, ◌⊎◌, ◌+◌, ◌/◌, ◌*◌, ◌^◌, ◌<◌, refl, true, false, none, some, List, [], ◌∷◌, map, arith,
  Text, text, ℤ, pos, negsuc, minus_one, sub_ℕ, ◌+ℤ◌, ◌-ℤ◌, ltb_ℤ, ok, Float, length, ◌↔◌,
}
use muxprune.Probe.{
  Stream, Result, MkvTrack, forget_id, align_mkv_ids, attach_mkv_ids, count_of_type, audio, video,
  subtitle,
}
use muxprune.Probe.Align.{IsAligned, align_mkv_ids-IsAligned, attach_mkv_ids_sound}
use muxprune.Engine.{
  RemovalSpec, Options, contains_int, sort_compact, normalise, validate, kept_streams,
  verify_result, verify_merge_result,
}
use muxprune.Engine.Guard.{HasUniqueIndexes, validate_keeps}
use muxprune.Engine.Verified.{
  Verified, MergeVerified, verify_result-Verified, verify_merge_result-MergeVerified,
}

abbrev times : ℤ → ℤ → ℤ
times (pos a) (pos b) = pos (a * b)
times (pos a) (negsuc b) = sub_ℕ 0 (a * (b + 1))
times (negsuc a) (pos b) = sub_ℕ 0 ((a + 1) * b)
times (negsuc a) (negsuc b) = pos ((a + 1) * (b + 1))

abbrev over : ℤ → ℤ → ℤ
over (pos a) (pos b) = pos (a / b)
over a b = pos 0

-- Floats with nothing behind the point; every text reads as 90.
abbrev pub wholes : Float ℤ
wholes = record {
  of_int = λ n. n;
  decimal = λ n k. pos (n / 10 ^ k);
  add = λ a b. a +ℤ b;
  sub = λ a b. a -ℤ b;
  mul = times;
  div = over;
  neg = λ a. pos 0 -ℤ a;
  lt = ltb_ℤ;
  to_int = λ a. a;
  parse = λ _. pos 90;
}

abbrev stream : ℕ → Text → ℤ → Stream
stream i t id = record {
  index = pos i;
  mkv_id = id;
  type = t;
  codec = [];
  lang = text "eng";
  title = [];
  channels = pos 2;
  channel_layout = [];
  default = false;
  forced = false;
  bit_rate = pos 0;
}

abbrev streams : List Stream
streams =
    stream 0 video minus_one
    ∷ stream 1 audio minus_one
    ∷ stream 2 audio minus_one
    ∷ stream 3 subtitle minus_one
    ∷ []

abbrev track : ℕ → Text → MkvTrack
track i t = record { id = pos i; type = t; language = text "eng"; codec_id = [] }

abbrev pub ident : List MkvTrack
ident =
    track 0 (text "video")
    ∷ track 3 (text "subtitles")
    ∷ track 1 (text "audio")
    ∷ track 2 (text "audio")
    ∷ []

aligned : (align_mkv_ids ident streams).1 ≡ none
unfolding align_mkv_ids muxprune.Probe.align_loop muxprune.Probe.tracks_of muxprune.Base.keep_if
    muxprune.Probe.ff_type muxprune.Base.text_eq muxprune.Probe.langs_compatible
    muxprune.Base.is_empty muxprune.Probe.codecs_compatible muxprune.Probe.count_check
aligned = refl

align_mkv_ids-IsAligned_example : IsAligned ident (align_mkv_ids ident streams).0
align_mkv_ids-IsAligned_example = align_mkv_ids-IsAligned ident streams aligned

attach_mkv_ids_sound_example :
    (map forget_id (attach_mkv_ids (some ident) streams) ≡ map forget_id streams)
    × ((attach_mkv_ids (some ident) streams ≡ map forget_id streams)
        ⊎ IsAligned ident (attach_mkv_ids (some ident) streams))
attach_mkv_ids_sound_example = attach_mkv_ids_sound ident streams

abbrev pub spec : RemovalSpec
spec = record { audio_idx = pos 2 ∷ pos 2 ∷ []; sub_idx = pos 3 ∷ [] }

abbrev pub no_options : Options
no_options = record { allow_hardlink = false; allow_last_audio = false; dry_run = false }

streams-HasUniqueIndexes : HasUniqueIndexes streams
streams-HasUniqueIndexes = ground arith

accepted : validate streams (normalise spec) no_options ≡ ok tt
unfolding validate muxprune.Engine.check_types sort_compact muxprune.Engine.by_idx
    muxprune.Base.text_eq muxprune.Base.keep_if
accepted = refl

validate_keeps_example :
    (length (kept_streams audio (sort_compact spec.audio_idx) streams)
        + length (sort_compact spec.audio_idx)
      ≡ count_of_type audio streams)
    × (length (kept_streams subtitle (sort_compact spec.sub_idx) streams)
          + length (sort_compact spec.sub_idx)
        ≡ count_of_type subtitle streams)
    × (0 < count_of_type video streams)
    × (false ≡ false
        → 0 < count_of_type audio streams
        → 0 < length (kept_streams audio (sort_compact spec.audio_idx) streams))
validate_keeps_example = validate_keeps streams spec no_options streams-HasUniqueIndexes accepted

abbrev input : Result ℤ
input = record {
  path = text "/m/a.mkv";
  format = text "matroska,webm";
  duration = pos 90;
  size = pos 100;
  streams = streams;
}

abbrev output : Result ℤ
output = record {
  path = text "/m/.tmp";
  format = text "matroska,webm";
  duration = pos 89;
  size = pos 60;
  streams = stream 0 video minus_one ∷ stream 1 audio minus_one ∷ [];
}

verified : verify_result ⦃f = wholes⦄ input (normalise spec) output ≡ ok tt
unfolding verify_result muxprune.Base.keep_if muxprune.Base.text_eq sort_compact
    muxprune.Engine.drifted ◌-ℤ◌ muxprune.Engine.size_floor muxprune.Engine.removed_bitrates_known
    muxprune.Base.exists_in contains_int
verified = refl

verify_result-Verified_example : Verified ⦃f = wholes⦄ input (normalise spec) output
verify_result-Verified_example =
    verify_result-Verified ⦃f = wholes⦄ input (normalise spec) output verified

verify_merge_result-MergeVerified_example :
    (verify_merge_result ⦃f = wholes⦄ output input ≡ ok tt)
    ↔ MergeVerified ⦃f = wholes⦄ output input
verify_merge_result-MergeVerified_example =
    verify_merge_result-MergeVerified ⦃f = wholes⦄ output input
