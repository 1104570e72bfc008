-- ===== src/Engine/Verified.antt =====
-- What `verify` and `verifyMerge` accept.
use muxprune.Base.{
  ℕ, ◌+◌, ◌≤◌, ◌≡◌, ◌↔◌, true, false, arith, ℤ, pos, sub_ℕ, ◌≤ℤ◌, eq_ℤ, ok, Float, if◌then◌else◌,
  length,
}
use muxprune.Probe.{Result, count_of_type, video, audio, subtitle}
use muxprune.Engine.{
  RemovalSpec, tenth, size_floor, removed_bitrates_known, estimate_removed, drifted, verify_result,
  verify_merge_result,
}

-- The floor is never below a tenth of the input, whatever the estimate and the rounding of floats.
tenth-le-size_floor : {D : Type 0} (f : Float D) (n est : ℤ) → tenth n ≤ℤ size_floor f n est
unfolding size_floor
tenth-le-size_floor f n est = ground arith

exact_count : (n a b : ℕ) → (eq_ℤ (pos n) (sub_ℕ a b) ≡ true) ↔ (n + b ≡ a)
exact_count n a b = ground arith

module _ {D : Type 0} ⦃f : Float D⦄ where
  abbrev pub floor_for : Result D → RemovalSpec → ℤ
  floor_for r spec = size_floor f r.size (
      if removed_bitrates_known r.duration r.streams spec
      then estimate_removed r.duration r.streams spec
      else r.size)

  pub record Verified (r : Result D) (spec : RemovalSpec) (out : Result D) : Type 0 where
    pub same_video : count_of_type video out.streams ≡ count_of_type video r.streams
    pub audio_left :
        count_of_type audio out.streams + length spec.audio_idx ≡ count_of_type audio r.streams
    pub subtitles_left :
        count_of_type subtitle out.streams + length spec.sub_idx ≡ count_of_type subtitle r.streams
    pub no_drift : drifted r.duration out.duration ≡ false
    pub large_enough : floor_for r spec ≤ℤ out.size
    pub above_tenth : tenth r.size ≤ℤ out.size

  -- An output that passes `verify` has the video streams of the input, exactly as many audio and
  -- subtitle streams less as were to be removed, a duration within the tolerance, and a size of at
  -- least the floor, so of at least a tenth of the input.
  pub verify_result-Verified :
      (r : Result D) (spec : RemovalSpec) (out : Result D)
      → verify_result r spec out ≡ ok tt
      → Verified r spec out
  unfolding verify_result
  verify_result-Verified r spec out h = ground (
    arith,
    exact_count (count_of_type audio out.streams) (count_of_type audio r.streams)
        (length spec.audio_idx),
    exact_count (count_of_type subtitle out.streams) (count_of_type subtitle r.streams)
        (length spec.sub_idx),
    tenth-le-size_floor f r.size (
        if removed_bitrates_known r.duration r.streams spec
        then estimate_removed r.duration r.streams spec
        else r.size),
  )

  pub record MergeVerified (r : Result D) (out : Result D) : Type 0 where
    pub same_video : count_of_type video out.streams ≡ count_of_type video r.streams
    pub audio_kept : count_of_type audio r.streams ≤ count_of_type audio out.streams
    pub subtitles_kept : count_of_type subtitle r.streams ≤ count_of_type subtitle out.streams
    pub no_drift : drifted r.duration out.duration ≡ false

  -- `verifyMerge` accepts exactly the outputs that keep the number of video streams, lose no audio
  -- and no subtitle stream in number, and have a duration within the tolerance.
  pub verify_merge_result-MergeVerified :
      (r out : Result D) → (verify_merge_result r out ≡ ok tt) ↔ MergeVerified r out
  unfolding verify_merge_result
  verify_merge_result-MergeVerified r out = (λ h. ground arith, λ v. ground arith)
