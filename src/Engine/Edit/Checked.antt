-- ===== src/Engine/Edit/Checked.antt =====
-- `EditMetadata`: nothing is written unless every edit is valid.
use muxprune.Base.{
  ℕ, ◌≡◌, refl, ap, Bool, true, false, not, ◌||◌, some, List, [], grow, ◌∷◌, arith, Text, is_empty,
  pos, ltb_ℤ, ◌==◌, Outcome, ok, Float, All, Bool-cases, Option-cases, Outcome-cases, inl, inr,
  exists_in, split_on, length,
}
use muxprune.Probe.{Stream, Result, is_matroska, safe_path_arg}
use muxprune.Probe.Run.{probe}
use muxprune.Engine.{EngineError, Tools, by_idx, no_edits, not_matroska}
use muxprune.Engine.Io.{Fs, Os, lift, throw_if}
use muxprune.Engine.Replace.{wrap_nice}
use muxprune.Engine.Remux.{probe_at}
use muxprune.Engine.Clean.{ReadsOnly-throw_if, ReadsOnly-lift, after-bind}
use muxprune.Engine.Failure.{probe_at-ReadsOnly, stat_replaceable-ReadsOnly}
use muxprune.Engine.Edit.{
  is_alphanumeric, is_subtag, valid_language_tag, edit_args, all_edit_args, run_edit, edit_metadata,
}
use muxprune.Store.Payload.{MetadataEdit}

-- A byte that cannot end a language tag or start an option.
abbrev pub IsTagByte : ℕ → Type 0
IsTagByte c = (is_alphanumeric c || c == b'-') ≡ true

abbrev bad_byte : ℕ → Bool
bad_byte c = not (is_alphanumeric c)

abbrev bad_part : Text → Bool
bad_part t = exists_in bad_byte t

grow-bad_part :
    (c : ℕ) (ps : List Text)
    → exists_in bad_part (grow c ps) ≡ (bad_byte c || exists_in bad_part ps)
unfolding exists_in
grow-bad_part c [] = ground arith
grow-bad_part c (p ∷ ps) = ground arith

split_on-IsTagByte : (s : Text) → exists_in bad_part (split_on b'-' s) ≡ false → All IsTagByte s
unfolding split_on exists_in
split_on-IsTagByte [] h = tt
split_on-IsTagByte (c ∷ s) h = elim (Bool-cases (c == b'-')) [
  | inl e ↦ (ground arith, split_on-IsTagByte s (ground arith))
  | inr e ↦
      (let parts = grow-bad_part c (split_on b'-' s) in
        (ground arith, split_on-IsTagByte s (ground arith)))
]

bad_part_of_subtags :
    (ts : List Text) → exists_in (λ t. not (is_subtag t)) ts ≡ false → exists_in bad_part ts ≡ false
unfolding exists_in
bad_part_of_subtags [] h = refl
bad_part_of_subtags (t ∷ ts) h = ground (arith, bad_part_of_subtags ts)

-- A language tag that passes has letters, digits and hyphens only.
pub valid_language_tag-IsTagByte : (s : Text) → valid_language_tag s ≡ true → All IsTagByte s
unfolding valid_language_tag
valid_language_tag-IsTagByte s h =
    split_on-IsTagByte s (bad_part_of_subtags (split_on b'-' s) (ground arith))

-- What an edit that is let through names: a stream with a track number, and no language or a valid
-- one.
pub record IsEdit (ss : List Stream) (e : MetadataEdit) : Type 0 where
  pub stream : Stream
  pub found : by_idx ss e.track_index ≡ some stream
  pub numbered : ltb_ℤ stream.mkv_id (pos 0) ≡ false
  pub language_ok : (is_empty e.language || valid_language_tag e.language) ≡ true

edit_args-IsEdit :
    (ss : List Stream) (e : MetadataEdit) {args : List Text}
    → edit_args ss e ≡ ok args
    → IsEdit ss e
unfolding edit_args
edit_args-IsEdit ss e h = elim (Option-cases (by_idx ss e.track_index)) [
  | inl n ↦ absurd (ground arith)
  | inr (st, n) ↦ record {
    stream = st;
    found = n;
    numbered = ground arith;
    language_ok = ground arith;
  }
]

all_edit_args-IsEdit :
    (ss : List Stream) (es : List MetadataEdit) {args : List Text}
    → all_edit_args ss es ≡ ok args
    → All (IsEdit ss) es
unfolding all_edit_args
all_edit_args-IsEdit ss [] h = tt
all_edit_args-IsEdit ss (e ∷ es) h = elim (Outcome-cases (edit_args ss e)) [
  | inr (x, r) ↦ absurd (ground arith)
  | inl (a, r) ↦ elim (Outcome-cases (all_edit_args ss es)) [
    | inr (x, q) ↦ absurd (ground arith)
    | inl (b, q) ↦ (edit_args-IsEdit ss e r, all_edit_args-IsEdit ss es q)
  ]
]

-- What an edit of metadata did to the file system: nothing, or the one run of mkvpropedit on the
-- file, once every edit was found valid.
pub data EditEffect {D : Type 0} (f : Float D) (os : Os) (tools : Tools) (path : Text)
    (edits : List MetadataEdit) (fs : Fs) : Fs → Type 0 where
  nothing_written : EditEffect f os tools path edits fs fs
  one_run :
      (res : Result D) (a : Text) (args : List Text) (fs' : Fs)
      → probe ⦃f = f⦄ (os.prober fs) path ≡ ok res
      → is_matroska res ≡ true
      → All (IsEdit res.streams) edits
      → all_edit_args res.streams edits ≡ ok (a ∷ args)
      → fs'
        ≡ (os.exec
            (wrap_nice os tools.mkvpropedit (safe_path_arg path ∷ a ∷ args)).0
            (wrap_nice os tools.mkvpropedit (safe_path_arg path ∷ a ∷ args)).1
            fs).1
      → EditEffect f os tools path edits fs fs'

probe_at-ok :
    {D : Type 0} (f : Float D) (os : Os) (path : Text) (fs : Fs) {res : Result D} {fs' : Fs}
    → probe_at ⦃f = f⦄ os path fs ≡ (ok res, fs')
    → probe ⦃f = f⦄ (os.prober fs) path ≡ ok res
probe_at-ok {D} f os path fs h = elim (Outcome-cases (probe {D = D} ⦃f = f⦄ (os.prober fs) path)) [
  | inl (r, e) ↦ ground arith
  | inr (x, e) ↦ absurd (ground arith)
]

throw_if-false :
    (b : Bool) (e : EngineError) (fs : Fs) {u : Unit {0}} {fs' : Fs}
    → throw_if b e fs ≡ (ok u, fs')
    → b ≡ false
throw_if-false b e fs h = ground arith

lift-ok :
    {A : Type 0} (r : Outcome EngineError A) (fs : Fs) {a : A} {fs' : Fs}
    → lift r fs ≡ (ok a, fs')
    → r ≡ ok a
lift-ok {A} r fs h = ap (λ (q : Outcome EngineError A × Fs). q.0) h

run_edit-fs :
    (os : Os) (tool : Text) (p a : Text) (args : List Text) (fs : Fs)
    → (run_edit os tool (p ∷ []) (a ∷ args) fs).1
      ≡ (os.exec (wrap_nice os tool (p ∷ a ∷ args)).0 (wrap_nice os tool (p ∷ a ∷ args)).1 fs).1
unfolding run_edit
run_edit-fs os tool p a args fs = ground arith

module _ {D : Type 0} (f : Float D) (os : Os) (tools : Tools) (path : Text)
    (edits : List MetadataEdit) (fs : Fs) where
  run_edit-EditEffect :
      (res : Result D) (args : List Text)
      → probe ⦃f = f⦄ (os.prober fs) path ≡ ok res
      → is_matroska res ≡ true
      → all_edit_args res.streams edits ≡ ok args
      → EditEffect f os tools path edits fs
          (run_edit os tools.mkvpropedit (safe_path_arg path ∷ []) args fs).1
  run_edit-EditEffect res [] p m e = unfold run_edit in nothing_written
  run_edit-EditEffect res (a ∷ args) p m e =
      one_run res a args _ p m (all_edit_args-IsEdit res.streams edits e) e
        (run_edit-fs os tools.mkvpropedit (safe_path_arg path) a args fs)

-- An edit of metadata, whatever it returns, has written nothing, or has run mkvpropedit once on the
-- file with the arguments of all edits. It runs only on a Matroska file, and only if every edit
-- names a stream with a track number and has no language or a valid one.
pub edit_metadata-EditEffect :
    {D : Type 0} (f : Float D) (os : Os) (tools : Tools) (path : Text) (edits : List MetadataEdit)
    (allow_hardlink : Bool) (fs : Fs)
    → EditEffect f os tools path edits fs (edit_metadata f os tools path edits allow_hardlink fs).1
unfolding edit_metadata
edit_metadata-EditEffect f os tools path edits allow_hardlink fs =
    let P = EditEffect f os tools path edits fs in
    after-bind P _ _ fs (ReadsOnly-throw_if (is_empty tools.mkvpropedit) _) nothing_written λ _ _.
      after-bind P _ _ fs (ReadsOnly-throw_if (length edits == 0) no_edits) nothing_written λ _ _.
        after-bind P _ _ fs (probe_at-ReadsOnly f os path) nothing_written λ res p.
          after-bind P _ _ fs (ReadsOnly-throw_if (not (is_matroska res)) not_matroska)
            nothing_written
            λ _ m.
              after-bind P _ _ fs (stat_replaceable-ReadsOnly path allow_hardlink) nothing_written
                λ _ _.
                  after-bind P _ _ fs (ReadsOnly-lift (all_edit_args res.streams edits))
                    nothing_written
                    λ args e.
                      run_edit-EditEffect f os tools path edits fs res args
                        (probe_at-ok f os path fs p)
                        (ground (arith, throw_if-false (not (is_matroska res)) not_matroska fs m))
                        (lift-ok _ fs e)
