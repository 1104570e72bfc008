-- ===== src/Engine/Recycle/Moved.antt =====
-- `moveFile`: whatever fails, the content is still there.
use muxprune.Base.{
  ◌≡◌, ◌≢◌, refl, ap, false, none, some, arith, Text, text, text_eq, text_eq→eq, text_eq_iff,
  text_eq_refl, Outcome, ok, err, Bool-cases, Option-cases, Outcome-cases, inl, inr, length,
  length-append,
}
use muxprune.Engine.{EngineError, rename_failed}
use muxprune.Engine.Io.{File, Fs, Os, write_entry}
use muxprune.Engine.Replace.{rename}
use muxprune.Engine.Recycle.{
  Calls, part_of, remove, give_up, finish_copy, copy_into, copy_over, move_file,
}

-- Where the file `x` of `src` is after an attempt to move it: at `dst` if there was no error, and
-- still at `src` if there was one.
pub data MoveOutcome (src dst : Text) (x : File)
    : Outcome EngineError (Unit {0}) × Fs → Type 0 where
  arrived :
      (fs' : Fs) (y : File)
      → fs' src ≡ none
      → fs' dst ≡ some y
      → y.content ≡ x.content
      → MoveOutcome src dst x (ok tt, fs')
  stayed : (e : EngineError) (fs' : Fs) → fs' src ≡ some x → MoveOutcome src dst x (err e, fs')

part_of-differs : (dst : Text) → text_eq dst (part_of dst) ≡ false
part_of-differs dst = elim (Bool-cases (text_eq dst (part_of dst))) [
  | inr e ↦ e
  | inl e ↦
      (let same : length dst ≡ length (part_of dst) = ap length (text_eq→eq dst (part_of dst) e) in
        absurd (omega (arith, same, length-append dst (text ".part"))))
]

rename-ok :
    (os : Os) (a b : Text) (fs : Fs) (y : File)
    → fs a ≡ some y
    → os.rename_error fs a b ≡ none
    → rename os a b fs ≡ (ok tt, write_entry b (some y) (write_entry a none fs))
unfolding rename
rename-ok os a b fs y h r = ground arith

rename-err :
    (os : Os) (a b : Text) (fs : Fs) (y : File) (e : Text)
    → fs a ≡ some y
    → os.rename_error fs a b ≡ some e
    → rename os a b fs ≡ (err (rename_failed e), fs)
unfolding rename
rename-err os a b fs y e h r = ground arith

module _ (os : Os) (calls : Calls) (src dst : Text) (x : File) where
  remove-MoveOutcome :
      (fs : Fs) (y : File)
      → text_eq dst src ≡ false
      → fs src ≡ some x
      → fs dst ≡ some y
      → y.content ≡ x.content
      → MoveOutcome src dst x (remove os src fs)
  unfolding remove
  remove-MoveOutcome fs y ne h k c = elim (Bool-cases (os.remove_ok fs src)) [
    | inl e ↦ rw e (arrived _ y (ground (arith, text_eq_refl src)) (ground arith) c)
    | inr e ↦ rw e (stayed _ fs h)
  ]

  give_up-MoveOutcome :
      (e : EngineError) (fs : Fs)
      → text_eq src (part_of dst) ≡ false
      → fs src ≡ some x
      → MoveOutcome src dst x (give_up os (part_of dst) e fs)
  give_up-MoveOutcome e fs ne h = stayed e _ (ground arith)

  finish_copy-MoveOutcome :
      (fs : Fs) (y : File)
      → text_eq dst src ≡ false
      → text_eq src dst ≡ false
      → text_eq src (part_of dst) ≡ false
      → fs src ≡ some x
      → fs (part_of dst) ≡ some y
      → y.content ≡ x.content
      → MoveOutcome src dst x (finish_copy os src dst fs)
  finish_copy-MoveOutcome fs y ne ne' np h k c =
      elim (Option-cases (os.rename_error fs (part_of dst) dst)) [
        | inr (e, r) ↦
            rw (rename-err os (part_of dst) dst fs y e k r, finish_copy)
              (give_up-MoveOutcome _ fs np h)
        | inl r ↦
            rw (rename-ok os (part_of dst) dst fs y k r, finish_copy)
              (remove-MoveOutcome (write_entry dst (some y) (write_entry (part_of dst) none fs)) y
                ne (ground arith) (ground (arith, text_eq_refl dst)) c)
      ]

  copy_into-MoveOutcome :
      (content : Text) (fs : Fs)
      → text_eq dst src ≡ false
      → text_eq src dst ≡ false
      → text_eq src (part_of dst) ≡ false
      → fs src ≡ some x
      → content ≡ x.content
      → MoveOutcome src dst x (copy_into os calls src dst content fs)
  copy_into-MoveOutcome content fs ne ne' np h c =
      elim (Option-cases (calls.copy_error fs (part_of dst))) [
        | inr ((e, left), r) ↦ rw (r, copy_into) (give_up-MoveOutcome _ _ np (ground arith))
        | inl r ↦
            rw (r, copy_into)
              (finish_copy-MoveOutcome _
                (record (calls.new_file fs (part_of dst)) { content = content }) ne ne' np
                (ground arith) (ground (arith, text_eq_refl (part_of dst))) c)
      ]

  copy_over-MoveOutcome :
      (fs : Fs)
      → text_eq dst src ≡ false
      → text_eq src dst ≡ false
      → text_eq src (part_of dst) ≡ false
      → ((content : Text) → calls.read fs src ≡ ok content → content ≡ x.content)
      → fs src ≡ some x
      → MoveOutcome src dst x (copy_over os calls src dst fs)
  copy_over-MoveOutcome fs ne ne' np reads h = elim (Outcome-cases (calls.read fs src)) [
    | inr (e, r) ↦ rw (r, copy_over) (stayed _ fs h)
    | inl (content, r) ↦
        rw (r, copy_over)
          (elim (Option-cases (calls.create_error fs (part_of dst))) [
            | inr (e, q) ↦ rw q (stayed _ fs h)
            | inl q ↦ rw q (copy_into-MoveOutcome content fs ne ne' np h (reads content r))
          ])
  ]

  -- A move of a file to another name, by a rename or by a copy: without an error the content is at
  -- the new name and the old one is free, and with an error, at whatever step, the file is still at
  -- the old name as it was, provided that what is read of it is its content.
  pub move_file-MoveOutcome :
      (fs : Fs)
      → src ≢ dst
      → src ≢ part_of dst
      → ((content : Text) → calls.read fs src ≡ ok content → content ≡ x.content)
      → fs src ≡ some x
      → MoveOutcome src dst x (move_file os calls src dst fs)
  unfolding move_file
  move_file-MoveOutcome fs ne np reads h =
      let ne1 : text_eq src dst ≡ false = ground (arith, text_eq_iff src dst) in
      let ne2 : text_eq dst src ≡ false = ground (arith, text_eq_iff dst src) in
      let np1 : text_eq src (part_of dst) ≡ false = ground (arith, text_eq_iff src (part_of dst)) in
      elim (Option-cases (os.rename_error fs src dst)) [
        | inl r ↦
            rw (rename-ok os src dst fs x h r) (
              arrived _ x (ground (arith, text_eq_refl src)) (ground (arith, text_eq_refl dst))
                refl)
        | inr (e, r) ↦
            rw (rename-err os src dst fs x e h r) (copy_over-MoveOutcome fs ne2 ne1 np1 reads h)
      ]
