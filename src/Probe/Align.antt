-- ===== src/Probe/Align.antt =====
-- `alignMkvIDs`: the numbers that it writes are those of the tracks of the same type, in order.
use mathlib.Core.Path.{subst}
use muxprune.Base.{
  text_eq→eq, eq_nil_of_length, ◌≡◌, ◌∙◌, ◌⊎◌, refl, sym, ap, true, false, Option, none, some, List,
  [], ◌∷◌, map, arith, Text, text_eq, text_eq_refl, ℤ, Bool-cases, Option-cases, length, keep_if,
  get_elem?, drop, drop-get_elem?, drop_past, inl, inr,
}
use muxprune.Probe.{
  keep_aligned, attach_mkv_ids, forget_id, Stream, MkvTrack, streams_of_type, count_of_type,
  tracks_of, langs_compatible, codecs_compatible, AlignError, Seen, bump, align_loop, count_check,
  track_types, after_loop, align_mkv_ids, video, audio, subtitle,
}

abbrev pub ids_of : Text → List Stream → List ℤ
ids_of t ss = map (λ s. s.mkv_id) (streams_of_type t ss)

abbrev pub track_ids : List MkvTrack → List ℤ
track_ids ks = map (λ k. k.id) ks

module _ (tracks : Text → List MkvTrack) where
  -- What one round that goes on has done to its stream.
  data Round (seen : Seen) (s : Stream) (ss : List Stream) (out : List Stream) : Type 0 where
    unmatched :
        get_elem? (tracks s.type) (seen s.type) ≡ none
        → out ≡ s ∷ (align_loop tracks (bump seen s.type) ss).0
        → (align_loop tracks (bump seen s.type) ss).1 ≡ none
        → Round seen s ss out
    matched :
        (k : MkvTrack)
        → get_elem? (tracks s.type) (seen s.type) ≡ some k
        → langs_compatible s.lang k.language ≡ true
        → codecs_compatible k.codec_id s.codec ≡ true
        → out ≡ record s { mkv_id = k.id } ∷ (align_loop tracks (bump seen s.type) ss).0
        → (align_loop tracks (bump seen s.type) ss).1 ≡ none
        → Round seen s ss out

  align_loop-Round :
      (seen : Seen) (s : Stream) (ss : List Stream)
      → (align_loop tracks seen (s ∷ ss)).1 ≡ none
      → Round seen s ss (align_loop tracks seen (s ∷ ss)).0
  unfolding align_loop
  align_loop-Round seen s ss h = elim (Option-cases (get_elem? (tracks s.type) (seen s.type))) [
    | inl e ↦ unmatched e (ground arith) (ground arith)
    | inr (k, e) ↦ elim (Bool-cases (langs_compatible s.lang k.language)) [
      | inr l ↦ absurd (ground arith)
      | inl l ↦ elim (Bool-cases (codecs_compatible k.codec_id s.codec)) [
        | inr c ↦ absurd (ground arith)
        | inl c ↦ matched k e l c (ground arith) (ground arith)
      ]
    ]
  ]

  -- What the loop owes for a type: where as many streams of it are left as tracks, their numbers
  -- are those of the tracks, in order.
  abbrev Owed : Text → Seen → List Stream → Type 0
  Owed t seen ss =
      length (streams_of_type t ss) ≡ length (drop (seen t) (tracks t))
      → ids_of t (align_loop tracks seen ss).0 ≡ track_ids (drop (seen t) (tracks t))

  same-Owed :
      (seen : Seen) (s : Stream) (ss out : List Stream)
      → Owed s.type (bump seen s.type) ss
      → length (streams_of_type s.type (s ∷ ss)) ≡ length (drop (seen s.type) (tracks s.type))
      → Round seen s ss out
      → ids_of s.type out ≡ track_ids (drop (seen s.type) (tracks s.type))
  unfolding keep_if
  same-Owed seen s ss out ih n (unmatched e o r) =
      absurd (ground (arith, drop_past (tracks s.type) (seen s.type) e, text_eq_refl s.type))
  same-Owed seen s ss out ih n (matched k e l c o r) =
      ground (arith, drop-get_elem? (tracks s.type) (seen s.type) k e, text_eq_refl s.type, ih)

  other-Owed :
      (t : Text) (seen : Seen) (s : Stream) (ss out : List Stream)
      → text_eq s.type t ≡ false
      → Owed t (bump seen s.type) ss
      → length (streams_of_type t (s ∷ ss)) ≡ length (drop (seen t) (tracks t))
      → Round seen s ss out
      → ids_of t out ≡ track_ids (drop (seen t) (tracks t))
  unfolding keep_if
  other-Owed t seen s ss out e ih n (unmatched _ o r) = ground (arith, ih)
  other-Owed t seen s ss out e ih n (matched k _ l c o r) = ground (arith, ih)

  rest_none :
      (seen : Seen) (s : Stream) (ss out : List Stream)
      → Round seen s ss out
      → (align_loop tracks (bump seen s.type) ss).1 ≡ none
  rest_none seen s ss out (unmatched _ _ r) = r
  rest_none seen s ss out (matched _ _ _ _ _ r) = r

  align_loop-Owed :
      (t : Text) (seen : Seen) (ss : List Stream)
      → (align_loop tracks seen ss).1 ≡ none
      → Owed t seen ss
  align_loop-Owed t seen [] h n =
      unfold align_loop keep_if in
      rw (eq_nil_of_length (drop (seen t) (tracks t)) (sym (unfold keep_if in n)))
  align_loop-Owed t seen (s ∷ ss) h n =
      let r = align_loop-Round seen s ss h in
      let ih = align_loop-Owed t (bump seen s.type) ss (rest_none seen s ss _ r) in
      elim (Bool-cases (text_eq s.type t)) [
        | inr e ↦ other-Owed t seen s ss _ e ih n r
        | inl e ↦
            subst
              (λ u.
                Owed u (bump seen s.type) ss
                → length (streams_of_type u (s ∷ ss)) ≡ length (drop (seen u) (tracks u))
                → ids_of u (align_loop tracks seen (s ∷ ss)).0
                  ≡ track_ids (drop (seen u) (tracks u)))
              (text_eq→eq s.type t e) (λ w m. same-Owed seen s ss _ w m r) ih n
      ]

  -- The loop writes nothing but track numbers, also where it stops at an error.
  align_loop-forget_id :
      (seen : Seen) (ss : List Stream)
      → map forget_id (align_loop tracks seen ss).0 ≡ map forget_id ss
  unfolding align_loop
  align_loop-forget_id seen [] = refl
  align_loop-forget_id seen (s ∷ ss) = ground (arith, align_loop-forget_id (bump seen s.type) ss)

count_of_type-forget_id :
    (t : Text) (ss : List Stream) → count_of_type t (map forget_id ss) ≡ count_of_type t ss
unfolding keep_if
count_of_type-forget_id t [] = refl
count_of_type-forget_id t (s ∷ ss) = ground (arith, count_of_type-forget_id t ss)

count_of_type_of_forget_id :
    (t : Text) (out ss : List Stream)
    → map forget_id out ≡ map forget_id ss
    → count_of_type t out ≡ count_of_type t ss
count_of_type_of_forget_id t out ss e =
    sym (count_of_type-forget_id t out) ∙ ap (count_of_type t) e ∙ count_of_type-forget_id t ss

-- An alignment, with or without an error, changes track numbers only: every stream keeps its place
-- and all other fields.
pub align_mkv_ids-forget_id :
    (ident : List MkvTrack) (ss : List Stream)
    → map forget_id (align_mkv_ids ident ss).0 ≡ map forget_id ss
unfolding align_mkv_ids
align_mkv_ids-forget_id ident ss =
    ground (arith, align_loop-forget_id (tracks_of ident) (λ _. 0) ss)

-- For a type, the numbers of its streams are those of the tracks of the type, in order.
abbrev pub AlignedFor : List MkvTrack → List Stream → Text → Type 0
AlignedFor ident out t = ids_of t out ≡ track_ids (tracks_of ident t)

abbrev pub IsAligned : List MkvTrack → List Stream → Type 0
IsAligned ident out =
    AlignedFor ident out video × AlignedFor ident out audio × AlignedFor ident out subtitle

count_check-none :
    (tracks : Text → List MkvTrack) (out : List Stream)
    → count_check tracks out track_types ≡ none
    → (count_of_type video out ≡ length (tracks video))
      × (count_of_type audio out ≡ length (tracks audio))
      × (count_of_type subtitle out ≡ length (tracks subtitle))
unfolding count_check
count_check-none tracks out h = ground arith

AlignedFor-of_loop :
    (ident : List MkvTrack) (ss : List Stream) (t : Text)
    → (align_loop (tracks_of ident) (λ _. 0) ss).1 ≡ none
    → count_of_type t (align_loop (tracks_of ident) (λ _. 0) ss).0 ≡ length (tracks_of ident t)
    → AlignedFor ident (align_loop (tracks_of ident) (λ _. 0) ss).0 t
AlignedFor-of_loop ident ss t h c =
    align_loop-Owed (tracks_of ident) t (λ _. 0) ss h
      (sym (count_of_type_of_forget_id t _ ss (align_loop-forget_id (tracks_of ident) (λ _. 0) ss))
        ∙ c)

after_loop-none :
    (tracks : Text → List MkvTrack) (r : List Stream × Option AlignError)
    → (after_loop tracks r).1 ≡ none
    → (r.1 ≡ none) × (count_check tracks r.0 track_types ≡ none) × ((after_loop tracks r).0 ≡ r.0)
after_loop-none tracks (ss, none) h = (refl, h, refl)
after_loop-none tracks (ss, some e) h = cc

-- An alignment that reports no error has given every video, audio and subtitle stream the number of
-- the track of its type that stands at the same position, and has used every such track.
pub align_mkv_ids-IsAligned :
    (ident : List MkvTrack) (ss : List Stream)
    → (align_mkv_ids ident ss).1 ≡ none
    → IsAligned ident (align_mkv_ids ident ss).0
unfolding align_mkv_ids
align_mkv_ids-IsAligned ident ss h =
    let loop = align_loop (tracks_of ident) (λ _. 0) ss in
    let (ended, counted, same) = after_loop-none (tracks_of ident) loop h in
    let (v, a, s) = count_check-none (tracks_of ident) loop.0 counted in
    rw same (
      AlignedFor-of_loop ident ss video ended v,
      AlignedFor-of_loop ident ss audio ended a,
      AlignedFor-of_loop ident ss subtitle ended s,
    )

map-forget_id_idem : (ss : List Stream) → map forget_id (map forget_id ss) ≡ map forget_id ss
map-forget_id_idem [] = refl
map-forget_id_idem (s ∷ ss) = cc (map-forget_id_idem ss)

keep_aligned_sound :
    (ident : List MkvTrack) (ss : List Stream) (r : List Stream × Option AlignError)
    → map forget_id r.0 ≡ map forget_id ss
    → (r.1 ≡ none → IsAligned ident r.0)
    → (map forget_id (keep_aligned r) ≡ map forget_id ss)
      × ((keep_aligned r ≡ map forget_id ss) ⊎ IsAligned ident (keep_aligned r))
keep_aligned_sound ident ss (out, none) e h = (e, inr (h refl))
keep_aligned_sound ident ss (out, some x) e h = (map-forget_id_idem out ∙ e, inl e)

-- What `Probe` returns for a Matroska file has every track number unknown, or is aligned with what
-- mkvmerge reported. Either way nothing but track numbers differs from what ffprobe reported.
pub attach_mkv_ids_sound :
    (ident : List MkvTrack) (ss : List Stream)
    → (map forget_id (attach_mkv_ids (some ident) ss) ≡ map forget_id ss)
      × ((attach_mkv_ids (some ident) ss ≡ map forget_id ss)
          ⊎ IsAligned ident (attach_mkv_ids (some ident) ss))
unfolding attach_mkv_ids
attach_mkv_ids_sound ident ss =
    keep_aligned_sound ident ss (align_mkv_ids ident ss) (align_mkv_ids-forget_id ident ss)
      (align_mkv_ids-IsAligned ident ss)
