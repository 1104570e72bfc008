-- ===== src/Engine/Guard.antt =====
-- What a removal leaves, once `validate` has let it through: the streams that mkvmerge is told to
-- keep are as many as the verification will ask for, and an audio track stays.
use mathlib.Core.Path.{subst}
use muxprune.Base.{
  suc, ◌+◌, ◌<◌, ◌≡◌, ◌≢◌, refl, Bool, true, false, not, List, [], ◌∷◌, arith, Text, ℤ, ◌<ℤ◌, eq_ℤ,
  eq_ℤ_iff, eq_ℤ→eq, eq_ℤ_refl, ap, ok, length, keep_if, exists_in, All, Bool-cases, inl, inr,
}
use muxprune.Probe.{Stream, of_type, streams_of_type, count_of_type, video, audio, subtitle}
use muxprune.Engine.{
  RemovalSpec, Options, EngineError, not_audio, not_subtitle, contains_int, sort_compact, normalise,
  by_idx, type_at, check_types, validate, kept_streams,
}
use muxprune.Engine.Sorted.{IsStrict, sort_compact-IsStrict}

-- ffprobe numbers the streams of a file: no two share an index.
abbrev pub FreshIndex : ℤ → List Stream → Type 0
FreshIndex i ss = All (λ s. s.index ≢ i) ss

abbrev pub HasUniqueIndexes : List Stream → Type 0
HasUniqueIndexes [] = Unit
HasUniqueIndexes (s ∷ ss) = FreshIndex s.index ss × HasUniqueIndexes ss

FreshIndex-keep_if :
    (p : Stream → Bool) (i : ℤ) (ss : List Stream) → FreshIndex i ss → FreshIndex i (keep_if p ss)
unfolding keep_if
FreshIndex-keep_if p i [] f = tt
FreshIndex-keep_if p i (s ∷ ss) f = elim (Bool-cases (p s)) [
  | inl e ↦ rw e (f.0, FreshIndex-keep_if p i ss f.1)
  | inr e ↦ rw e (FreshIndex-keep_if p i ss f.1)
]

HasUniqueIndexes-keep_if :
    (p : Stream → Bool) (ss : List Stream) → HasUniqueIndexes ss → HasUniqueIndexes (keep_if p ss)
unfolding keep_if
HasUniqueIndexes-keep_if p [] u = tt
HasUniqueIndexes-keep_if p (s ∷ ss) u = elim (Bool-cases (p s)) [
  | inl e ↦ rw e (FreshIndex-keep_if p s.index ss u.0, HasUniqueIndexes-keep_if p ss u.1)
  | inr e ↦ rw e (HasUniqueIndexes-keep_if p ss u.1)
]

abbrev left_by : List ℤ → List Stream → List Stream
left_by is ss = keep_if (λ s. not (contains_int is s.index)) ss

abbrev has_index : ℤ → List Stream → Bool
has_index i ss = exists_in (λ s. eq_ℤ s.index i) ss

-- An index that no stream has takes nothing more away.
left_by-fresh :
    (i : ℤ) (is : List ℤ) (ss : List Stream)
    → FreshIndex i ss
    → length (left_by (i ∷ is) ss) ≡ length (left_by is ss)
unfolding keep_if contains_int
left_by-fresh i is [] f = refl
left_by-fresh i is (s ∷ ss) f = ground (arith, f.0, eq_ℤ_iff i s.index, left_by-fresh i is ss f.1)

left_by-head :
    (is : List ℤ) (s : Stream) (ss : List Stream)
    → FreshIndex s.index ss
    → contains_int is s.index ≡ false
    → length (left_by (s.index ∷ is) (s ∷ ss)) + 1 ≡ length (left_by is (s ∷ ss))
unfolding keep_if contains_int
left_by-head is s ss f c = ground (arith, eq_ℤ_refl s.index, left_by-fresh s.index is ss f)

-- An index that a stream has, and that was not removed yet, takes one stream away.
left_by-present :
    (i : ℤ) (is : List ℤ) (ss : List Stream)
    → HasUniqueIndexes ss
    → has_index i ss ≡ true
    → contains_int is i ≡ false
    → length (left_by (i ∷ is) ss) + 1 ≡ length (left_by is ss)
unfolding keep_if contains_int exists_in
left_by-present i is [] u h c = cc
left_by-present i is (s ∷ ss) u h c = elim (Bool-cases (eq_ℤ s.index i)) [
  | inl e ↦
      (let same = eq_ℤ→eq s.index i e in
        subst
          (λ k.
            contains_int is k ≡ false
            → length (left_by (k ∷ is) (s ∷ ss)) + 1 ≡ length (left_by is (s ∷ ss)))
          same (left_by-head is s ss u.0) c)
  | inr e ↦ ground (arith, e, eq_ℤ_iff i s.index, eq_ℤ_iff s.index i, left_by-present i is ss u.1)
]

left_by-nil : (ss : List Stream) → length (left_by [] ss) ≡ length ss
unfolding keep_if contains_int
left_by-nil [] = refl
left_by-nil (s ∷ ss) = ap suc (left_by-nil ss)

-- A strictly increasing list of indexes that streams have takes as many streams away.
contains_int-below : (x : ℤ) (xs : List ℤ) → All (λ y. x <ℤ y) xs → contains_int xs x ≡ false
unfolding contains_int
contains_int-below x [] a = refl
contains_int-below x (y ∷ ys) a = ground (arith, a.0, contains_int-below x ys a.1)

length-left_by :
    (is : List ℤ) (ss : List Stream)
    → HasUniqueIndexes ss
    → IsStrict is
    → All (λ i. has_index i ss ≡ true) is
    → length (left_by is ss) + length is ≡ length ss
length-left_by [] ss u s h = omega (arith, left_by-nil ss)
length-left_by (i ∷ is) ss u s h = omega (
  arith,
  left_by-present i is ss u h.0 (contains_int-below i is s.0),
  length-left_by is ss u s.1 h.1,
)

-- An index that `byIdx` maps to a stream of the type is the index of a stream of the type.
present_of_type_at :
    (ss : List Stream) (t : Text) (i : ℤ)
    → type_at ss t i ≡ true
    → has_index i (streams_of_type t ss) ≡ true
unfolding by_idx keep_if exists_in
present_of_type_at [] t i h = cc
present_of_type_at (s ∷ ss) t i h = ground (arith, present_of_type_at ss t i)

check_types-present :
    (ss : List Stream) (t : Text) (e : ℤ → EngineError) (is : List ℤ)
    → check_types ss t e is ≡ ok tt
    → All (λ i. has_index i (streams_of_type t ss) ≡ true) is
unfolding check_types
check_types-present ss t e [] h = tt
check_types-present ss t e (i ∷ is) h = elim (Bool-cases (type_at ss t i)) [
  | inl p ↦ (present_of_type_at ss t i p, check_types-present ss t e is (ground arith))
  | inr p ↦ absurd (ground arith)
]

validate-parts :
    (ss : List Stream) (spec : RemovalSpec) (opts : Options)
    → validate ss spec opts ≡ ok tt
    → (check_types ss audio not_audio spec.audio_idx ≡ ok tt)
      × (check_types ss subtitle not_subtitle spec.sub_idx ≡ ok tt)
      × (opts.allow_last_audio ≡ false
          → 0 < count_of_type audio ss
          → length spec.audio_idx < count_of_type audio ss)
      × (0 < count_of_type video ss)
unfolding validate
validate-parts ss spec opts h = ground arith

kept_count :
    (ss : List Stream) (t : Text) (e : ℤ → EngineError) (is : List ℤ)
    → HasUniqueIndexes ss
    → IsStrict is
    → check_types ss t e is ≡ ok tt
    → length (kept_streams t is ss) + length is ≡ count_of_type t ss
kept_count ss t e is u s h =
    length-left_by is (streams_of_type t ss) (HasUniqueIndexes-keep_if (of_type t) ss u) s
      (check_types-present ss t e is h)

-- Where no two streams of the file share an index, as in what ffprobe reports: once `validate` lets
-- a removal through, the audio streams kept are as many as the file has less the indexes listed,
-- each counted once, and so are the subtitle streams; the file has a video stream; and unless the
-- caller allows it otherwise, a file with audio keeps an audio stream.
pub validate_keeps :
    (ss : List Stream) (spec : RemovalSpec) (opts : Options)
    → HasUniqueIndexes ss
    → validate ss (normalise spec) opts ≡ ok tt
    → (length (kept_streams audio (sort_compact spec.audio_idx) ss)
          + length (sort_compact spec.audio_idx)
        ≡ count_of_type audio ss)
      × (length (kept_streams subtitle (sort_compact spec.sub_idx) ss)
            + length (sort_compact spec.sub_idx)
          ≡ count_of_type subtitle ss)
      × (0 < count_of_type video ss)
      × (opts.allow_last_audio ≡ false
          → 0 < count_of_type audio ss
          → 0 < length (kept_streams audio (sort_compact spec.audio_idx) ss))
validate_keeps ss spec opts u h =
    let (a, s, last, v) = validate-parts ss (normalise spec) opts h in
    let ka =
      kept_count ss audio not_audio (sort_compact spec.audio_idx) u
        (sort_compact-IsStrict spec.audio_idx) a in
    let ks =
      kept_count ss subtitle not_subtitle (sort_compact spec.sub_idx) u
        (sort_compact-IsStrict spec.sub_idx) s in
    (ka, ks, v, λ no some_audio. omega (arith, last no some_audio, ka))
