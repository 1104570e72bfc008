-- ===== src/Engine/Validate.antt =====
-- `validate`, and the lists of stream indexes that a removal names.
use muxprune.Base.{
  Bool, false, not, ◌&&◌, ◌||◌, Option, none, some, List, [], ◌∷◌, Text, text_eq, ℤ, leb_ℤ, eq_ℤ,
  ltb, leb, ◌==◌, Outcome, ok, err, fail_if, ◌>>◌, if◌then◌else◌, length,
}
use muxprune.Probe.{Stream, count_of_type, video, audio, subtitle}
use muxprune.Engine.Types.{
  RemovalSpec, Options, EngineError, last_audio, no_video, not_audio, not_subtitle,
}

unfoldable pub contains_int : List ℤ → ℤ → Bool
contains_int [] i = false
contains_int (x ∷ xs) i = eq_ℤ x i || contains_int xs i

-- `slices.Compact(slices.Sorted(slices.Values(xs)))`
unfoldable pub insert_int : ℤ → List ℤ → List ℤ
insert_int x [] = x ∷ []
insert_int x (y ∷ ys) = let rest = insert_int x ys in if leb_ℤ x y then x ∷ y ∷ ys else y ∷ rest

unfoldable pub sort_ints : List ℤ → List ℤ
unfolding insert_int
sort_ints [] = []
sort_ints (x ∷ xs) = insert_int x (sort_ints xs)

unfoldable pub compact : List ℤ → List ℤ
compact [] = []
compact (x ∷ []) = x ∷ []
compact (x ∷ y ∷ ys) = let rest = compact (y ∷ ys) in if eq_ℤ x y then rest else x ∷ rest

unfoldable pub sort_compact : List ℤ → List ℤ
unfolding sort_ints compact
sort_compact xs = compact (sort_ints xs)

abbrev pub normalise : RemovalSpec → RemovalSpec
normalise s = record { audio_idx = sort_compact s.audio_idx; sub_idx = sort_compact s.sub_idx }

-- The map `byIdx`: where two streams share an index, the later one is kept.
unfoldable pub by_idx : List Stream → ℤ → Option Stream
by_idx [] i = none
by_idx (s ∷ ss) i = elim (by_idx ss i) [
  | some r ↦ some r
  | none ↦ if eq_ℤ s.index i then some s else none
]

abbrev pub type_at : List Stream → Text → ℤ → Bool
type_at ss t i = elim (by_idx ss i) [ none ↦ false | some s ↦ text_eq s.type t ]

-- The loops of `validate` over one list of indexes.
unfoldable pub check_types :
    List Stream → Text → (ℤ → EngineError) → List ℤ → Outcome EngineError (Unit {0})
check_types ss t e [] = ok tt
check_types ss t e (i ∷ is) =
    let rest = check_types ss t e is in if type_at ss t i then rest else err (e i)

unfoldable pub validate : List Stream → RemovalSpec → Options → Outcome EngineError (Unit {0})
validate ss spec opts = do
  check_types ss audio not_audio spec.audio_idx
  check_types ss subtitle not_subtitle spec.sub_idx
  fail_if
      (leb (count_of_type audio ss) (length spec.audio_idx)
        && (ltb 0 (count_of_type audio ss) && not opts.allow_last_audio))
      last_audio
  fail_if (count_of_type video ss == 0) no_video
