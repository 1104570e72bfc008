-- ===== src/Engine/Untouched.antt =====
-- An operation that fails leaves every file that was there as it was.
use muxprune.Base.{
  ◌≡◌, ◌≢◌, ◌∙◌, refl, Bool, true, not, ◌||◌, ◌&&◌, none, some, List, ap, arith, Text, text_eq_iff,
  Option-cases, inl, inr, Outcome, ok, err, Float, ext, dir,
}
use muxprune.Probe.{Result}
use muxprune.Engine.{EngineError, tool_failed}
use muxprune.Engine.Io.{FileInfo, Fs, Os, Io, ◌>>=◌, continue, write_entry}
use muxprune.Engine.Replace.{
  close_temp, temp_path, wrap_nice, exec, sync_file, preserve_attrs, swap_in, replace_original,
  succeeded, warnings_only, tail_of, temp_pattern,
}
use muxprune.Engine.Remux.{verify_with, stat_output, run_and_replace, stem_of, remux}
use muxprune.Engine.Clean.{KeepsFiles, FailsClean}
use muxprune.Engine.Frame.{
  SameBut, SameBut-write_entry, failed, Framed, Failing, Framed-throw_if, Failing-bind,
  Failing-bind-pure, Failing-with_cleanup,
}

-- What the tool of a remux and the operating system do: the tool writes no file but its output, and
-- the name of a new temporary file was not in use.
pub record WritesOutputOnly (os : Os) (tool : Text) (args : Text → List Text) : Type 0 where
  pub tool_writes :
      (tmp : Text) (fs : Fs)
      → SameBut tmp fs
          (os.exec (wrap_nice os tool (args tmp)).0 (wrap_nice os tool (args tmp)).1 fs).1
  pub name_is_new :
      (fs : Fs) (d pattern name : Text) → os.temp_name fs d pattern ≡ ok name → fs name ≡ none

-- `os.CreateTemp` makes a file that was not there.
abbrev pub NamesAreNew : Os → Type 0
NamesAreNew os =
    (fs : Fs) (d pattern name : Text) → os.temp_name fs d pattern ≡ ok name → fs name ≡ none

sync_file-Framed : (os : Os) (tmp path : Text) → Framed tmp (sync_file os path)
unfolding sync_file
sync_file-Framed os tmp path = record { at = λ fs p ne. ground arith }

pub preserve_attrs-SameBut :
    (os : Os) (tmp : Text) (orig : FileInfo) (fs : Fs)
    → SameBut tmp fs (preserve_attrs os tmp orig fs)
unfolding preserve_attrs
preserve_attrs-SameBut os tmp orig fs p ne = ground (arith, text_eq_iff p tmp)

-- A swap that fails writes nothing.
swap_in-failed :
    (os : Os) (tmp path : Text) (orig : FileInfo) (fs : Fs)
    → failed (swap_in os tmp path orig fs).0 ≡ true
    → (swap_in os tmp path orig fs).1 ≡ fs
unfolding swap_in
swap_in-failed os tmp path orig fs h = ground arith

swap_in-Failing :
    (os : Os) (tmp path : Text) (orig : FileInfo)
    → Failing tmp (λ fs. swap_in os tmp path orig (preserve_attrs os tmp orig fs))
swap_in-Failing os tmp path orig = record {
  at = λ fs h p ne.
      rw (swap_in-failed os tmp path orig (preserve_attrs os tmp orig fs) h)
        (preserve_attrs-SameBut os tmp orig fs p ne);
}

replace_original-Failing :
    (os : Os) (tmp path : Text) (orig : FileInfo) → Failing tmp (replace_original os tmp path orig)
unfolding replace_original
replace_original-Failing os tmp path orig =
    Failing-bind tmp (sync_file os tmp) _ (sync_file-Framed os tmp tmp)
      (λ _. swap_in-Failing os tmp path orig)

stat_output-Framed : (os : Os) (tmp path : Text) → Framed tmp (stat_output os path)
stat_output-Framed os tmp path = record { at = λ fs p ne. ground arith }

exec-Framed :
    (os : Os) (tool : Text) (args : Text → List Text)
    → WritesOutputOnly os tool args
    → (tmp : Text) → Framed tmp (exec os (wrap_nice os tool (args tmp)))
exec-Framed os tool args w tmp = record { at = λ fs. w.tool_writes tmp fs }

module _ (os : Os) (tool : Text) (args : Text → List Text) (w : WritesOutputOnly os tool args) where
  temp-FailsClean :
      {A : Type 0} (d b e : Text) (m : Text → Io A)
      → ((tmp : Text) → Failing tmp (m tmp))
      → FailsClean (temp_path os d b e >>= m)
  unfolding temp_path
  temp-FailsClean d b e m k = record { at = λ fs. go fs (os.temp_name fs d _) refl }
    where
      made : Fs → Text → Fs
      made fs name = write_entry name (some (os.temp_file fs name)) fs

      differs :
          (fs : Fs) (name : Text)
          → os.temp_name fs d (temp_pattern b e) ≡ ok name
          → (p : Text) → fs p ≢ none
          → p ≢ name
      differs fs name eq p there same = there (ap fs same ∙ w.name_is_new fs d _ name eq)

      kept :
          (fs : Fs) (name : Text)
          → os.temp_name fs d (temp_pattern b e) ≡ ok name
          → (p : Text) → fs p ≢ none
          → made fs name p ≡ fs p
      kept fs name eq p there =
          SameBut-write_entry name (some (os.temp_file fs name)) fs p (differs fs name eq p there)

      go :
          (fs : Fs) (r : Outcome Text Text)
          → os.temp_name fs d (temp_pattern b e) ≡ r
          → failed ((temp_path os d b e >>= m) fs).0 ≡ true
          → KeepsFiles fs ((temp_path os d b e >>= m) fs).1
      go fs (err x) eq = rw (eq, temp_path) (λ _ p _. refl)
      go fs (ok name) eq = elim (Option-cases (os.close_error (made fs name) name)) [
        | inr (x, c) ↦
            rw (eq, temp_path)
              (rw (c, close_temp, continue, failed) (λ _ p there. kept fs name eq p there))
        | inl c ↦
            rw (eq, temp_path)
              (rw (c, close_temp, continue, failed)
                (λ h p there.
                  (k name).at (made fs name) h p (differs fs name eq p there)
                  ∙ kept fs name eq p there))
      ]

module _ {D : Type 0} ⦃f : Float D⦄ where
  verify_with-Framed :
      (os : Os) (tmp path : Text) (check : Result D → Outcome EngineError (Unit {0}))
      → Framed tmp (verify_with os path check)
  verify_with-Framed os tmp path check = record { at = λ fs p ne. ground arith }

  module _ (os : Os) (tool : Text) (args : Text → List Text)
      (w : WritesOutputOnly os tool args) where
    run_and_replace-Failing :
        (label tmp path : Text) (tolerant : Bool)
        (check : Result D → Outcome EngineError (Unit {0})) (info : FileInfo)
        → Failing tmp
            (run_and_replace os label (wrap_nice os tool (args tmp)) tolerant check tmp path info)
    unfolding run_and_replace
    run_and_replace-Failing label tmp path tolerant check info =
        Failing-bind tmp _ _ (exec-Framed os tool args w tmp) λ r.
          Failing-bind tmp _ _
            (Framed-throw_if tmp (not (succeeded r || (tolerant && warnings_only r)))
              (tool_failed label (tail_of r.stderr 1000)))
            λ _. Failing-bind tmp _ _ (verify_with-Framed os tmp tmp check) λ _.
              Failing-bind tmp _ _ (stat_output-Framed os tmp tmp) λ out.
                Failing-bind-pure tmp _ (λ _. out.size) (replace_original-Failing os tmp path info)

    -- A remux that fails leaves every file that was there as it was.
    pub remux-FailsClean :
        (label path : Text) (tolerant : Bool) (check : Result D → Outcome EngineError (Unit {0}))
        (info : FileInfo)
        → FailsClean (remux os label tool args tolerant check path info)
    unfolding remux
    remux-FailsClean label path tolerant check info =
        temp-FailsClean os tool args w (dir path) (stem_of path) (ext path) _ λ tmp.
          Failing-bind-pure tmp _ (λ size. (tmp, size))
            (Failing-with_cleanup os tmp _
              (run_and_replace-Failing label tmp path tolerant check info))
