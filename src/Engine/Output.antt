-- ===== src/Engine/Output.antt =====
-- `verify` and `verifyMerge`: the probed output against the probed input.
use muxprune.Base.{
  suc, ◌/◌, Bool, not, ◌&&◌, ◌||◌, List, [], ◌∷◌, ◌++◌, Text, ℤ, pos, negsuc, sub_ℕ, ◌+ℤ◌, ◌-ℤ◌,
  ltb_ℤ, leb_ℤ, eq_ℤ, ltb, ◌==◌, Outcome, fail_if, ◌>>◌, Float, if◌then◌else◌, length, exists_in,
}
use muxprune.Probe.{Stream, Result, count_of_type, video, audio, subtitle}
use muxprune.Engine.Types.{
  RemovalSpec, EngineError, video_count_changed, audio_count_changed, subtitle_count_changed,
  duration_drifted, output_too_small,
}
use muxprune.Engine.Validate.{contains_int}

-- `inSize / 10`: Go rounds towards zero.
abbrev pub tenth : ℤ → ℤ
tenth (pos n) = pos (n / 10)
tenth (negsuc n) = sub_ℕ 0 (suc n / 10)

abbrev pub removed_of : RemovalSpec → List ℤ
removed_of spec = spec.audio_idx ++ spec.sub_idx

unfoldable pub size_floor : {D : Type 0} → Float D → ℤ → ℤ → ℤ
size_floor f in_size removed =
    let floor = f.to_int (f.mul (f.of_int (in_size -ℤ removed)) (f.decimal 7 1)) in
    if ltb_ℤ floor (tenth in_size) then tenth in_size else floor

module _ {D : Type 0} ⦃f : Float D⦄ where
  abbrev pub is_positive : D → Bool
  is_positive d = f.lt (f.of_int (pos 0)) d

  unfoldable pub removed_bitrates_known : D → List Stream → RemovalSpec → Bool
  removed_bitrates_known duration ss spec = not (
      exists_in
        (λ s.
          contains_int (removed_of spec) s.index
          && (leb_ℤ s.bit_rate (pos 0) || not (is_positive duration)))
        ss)

  abbrev pub stream_bytes : D → Stream → ℤ
  stream_bytes duration s =
      f.to_int (f.mul (f.div (f.of_int s.bit_rate) (f.of_int (pos 8))) duration)

  unfoldable pub sum_removed : D → List ℤ → List Stream → ℤ
  sum_removed duration removed [] = pos 0
  sum_removed duration removed (s ∷ ss) =
      let rest = sum_removed duration removed ss in
      if contains_int removed s.index && (ltb_ℤ (pos 0) s.bit_rate && is_positive duration)
      then stream_bytes duration s +ℤ rest
      else rest

  abbrev pub estimate_removed : D → List Stream → RemovalSpec → ℤ
  estimate_removed duration ss spec = sum_removed duration (removed_of spec) ss

  -- The drift of two durations that are both known, against 1%, at least 2 s and at most 60 s.
  abbrev pub tolerance : D → D
  tolerance d =
      let t = f.mul d (f.decimal 1 2) in
      let t' = if f.lt t (f.decimal 20 1) then f.decimal 20 1 else t in
      if f.lt (f.decimal 600 1) t' then f.decimal 600 1 else t'

  abbrev pub drift : D → D → D
  drift a b = let diff = f.sub a b in if f.lt diff (f.of_int (pos 0)) then f.neg diff else diff

  unfoldable pub drifted : D → D → Bool
  drifted a b = is_positive a && (is_positive b && f.lt (tolerance a) (drift a b))

  -- `verify`, after the output was probed.
  unfoldable pub verify_result : Result D → RemovalSpec → Result D → Outcome EngineError (Unit {0})
  verify_result r spec out = do
    let want = λ (t : Text) (idx : List ℤ). sub_ℕ (count_of_type t r.streams) (length idx)
    fail_if (not (count_of_type video out.streams == count_of_type video r.streams))
        video_count_changed
    fail_if (not (eq_ℤ (pos (count_of_type audio out.streams)) (want audio spec.audio_idx)))
        audio_count_changed
    fail_if (not (eq_ℤ (pos (count_of_type subtitle out.streams)) (want subtitle spec.sub_idx)))
        subtitle_count_changed
    fail_if (drifted r.duration out.duration) duration_drifted
    let est =
        if removed_bitrates_known r.duration r.streams spec
        then estimate_removed r.duration r.streams spec
        else r.size
    fail_if (ltb_ℤ out.size (size_floor f r.size est)) (output_too_small out.size r.size)

  -- `verifyMerge`, after the output was probed.
  unfoldable pub verify_merge_result : Result D → Result D → Outcome EngineError (Unit {0})
  verify_merge_result r out = do
    fail_if (not (count_of_type video out.streams == count_of_type video r.streams))
        video_count_changed
    fail_if (ltb (count_of_type audio out.streams) (count_of_type audio r.streams))
        audio_count_changed
    fail_if (ltb (count_of_type subtitle out.streams) (count_of_type subtitle r.streams))
        subtitle_count_changed
    fail_if (drifted r.duration out.duration) duration_drifted
