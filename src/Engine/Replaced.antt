-- ===== src/Engine/Replaced.antt =====
-- What a remux that succeeds has done, from the run of the tool to the rename.
use mathlib.Core.Path.{subst}
use muxprune.Base.{
  ◌≡◌, ◌≢◌, ◌∙◌, sym, ap, Bool, true, none, some, List, arith, ℕ, Text, text_eq_iff, text_eq_refl,
  Outcome, ok, Float, Option-cases, Outcome-cases, inl, inr,
}
use muxprune.Probe.{Result}
use muxprune.Probe.Run.{probe}
use muxprune.Engine.{EngineError, tool_failed}
use muxprune.Engine.Io.{FileInfo, File, Fs, Os, Ran, pure, throw_if, write_entry}
use muxprune.Engine.Replace.{
  wrap_nice, exec, sync_file, preserve_attrs, swap_in, replace_original, unchanged_since, tail_of,
}
use muxprune.Engine.Remux.{
  verify_with, stat_output, run_and_replace, exit_step, verify_step, stat_step, swap_step,
  is_failure,
}
use muxprune.Engine.Frame.{bind-ok}
use muxprune.Engine.Untouched.{preserve_attrs-SameBut}

-- A swap that succeeds found the original unchanged, and moved the file at `tmp` over it.
swap_in-ok :
    (os : Os) (tmp path : Text) (orig : FileInfo) (fs : Fs) {u : Unit {0}} {fs' : Fs}
    → swap_in os tmp path orig fs ≡ (ok u, fs')
    → (unchanged_since (fs path) orig ≡ true)
      × (file : File) × (fs tmp ≡ some file)
      × (fs' ≡ write_entry path (some file) (write_entry tmp none fs))
unfolding swap_in
swap_in-ok os tmp path orig fs h = elim (Option-cases (fs tmp)) [
  | inl e ↦ absurd (ground arith)
  | inr (file, e) ↦ elim (Option-cases (os.rename_error fs tmp path)) [
    | inl r ↦ (ground arith, file, e, ground arith)
    | inr (x, r) ↦ absurd (ground arith)
  ]
]

-- The attributes change, the content does not.
preserve_attrs-content :
    (os : Os) (tmp : Text) (orig : FileInfo) (fs : Fs) (file : File)
    → preserve_attrs os tmp orig fs tmp ≡ some file
    → (x : File) × (fs tmp ≡ some x) × (file.content ≡ x.content)
unfolding preserve_attrs
preserve_attrs-content os tmp orig fs file h = elim (Option-cases (fs tmp)) [
  | inl e ↦ absurd (ground (arith, text_eq_refl tmp))
  | inr (x, e) ↦ (x, e, ground (arith, text_eq_refl tmp))
]

sync_file-ok :
    (os : Os) (tmp : Text) (fs : Fs) {u : Unit {0}} {fs' : Fs}
    → sync_file os tmp fs ≡ (ok u, fs')
    → fs' ≡ fs
unfolding sync_file
sync_file-ok os tmp fs h = ground arith

-- What holds when the action ends without an error, for the original at `path`: the file that was
-- swapped in is `file`, with attributes of its own.
pub record SwappedIn (os : Os) (tmp path : Text) (orig : FileInfo) (fs fs' : Fs) : Type 0 where
  pub still_there : unchanged_since (fs path) orig ≡ true
  pub new_file :
      (x : File) × (y : File) × (fs tmp ≡ some x) × (fs' path ≡ some y) × (y.content ≡ x.content)
  pub others : (p : Text) → p ≢ tmp → p ≢ path → fs' p ≡ fs p

replace_original-SwappedIn :
    (os : Os) (tmp path : Text) (orig : FileInfo) (fs : Fs) {u : Unit {0}} {fs' : Fs}
    → path ≢ tmp
    → replace_original os tmp path orig fs ≡ (ok u, fs')
    → SwappedIn os tmp path orig fs fs'
unfolding replace_original
replace_original-SwappedIn os tmp path orig fs {u} {fs'} ne h =
    let (_, fs1, s, w) = bind-ok tmp (sync_file os tmp) _ fs h in
    let same : fs1 ≡ fs = sync_file-ok os tmp fs s in
    let fs2 = preserve_attrs os tmp orig fs in
    let (there, y, e, r) = swap_in-ok os tmp path orig fs2 (rw same at w) in
    let (x, ex, c) = preserve_attrs-content os tmp orig fs y e in
    let kept = preserve_attrs-SameBut os tmp orig fs in
    record {
      still_there = rw (kept path ne) at there;
      new_file = (x, y, ex, ap (λ (g : Fs). g path) r ∙ ground (arith, text_eq_refl path), c);
      others = λ p n m.
          ap (λ (g : Fs). g p) r ∙ ground (arith, text_eq_iff p path, text_eq_iff p tmp, kept p n);
    }

throw_if-ok :
    (b : Bool) (e : EngineError) (fs : Fs) {u : Unit {0}} {fs' : Fs}
    → throw_if b e fs ≡ (ok u, fs')
    → fs' ≡ fs
throw_if-ok b e fs h = ground arith

stat_output-ok :
    (os : Os) (tmp : Text) (fs : Fs) {i : FileInfo} {fs' : Fs}
    → stat_output os tmp fs ≡ (ok i, fs')
    → (fs' ≡ fs) × (os.stat fs tmp ≡ some i)
stat_output-ok os tmp fs h = ground arith

exec-ok :
    (os : Os) (command : Text × List Text) (fs : Fs) {r : Ran} {fs' : Fs}
    → exec os command fs ≡ (ok r, fs')
    → (os.exec command.0 command.1 fs).1 ≡ fs'
exec-ok os command fs h = ap (λ (q : Outcome EngineError Ran × Fs). q.1) h

pure-ok : (a : ℕ) (fs : Fs) {b : ℕ} {fs' : Fs} → pure a fs ≡ (ok b, fs') → (a ≡ b) × (fs ≡ fs')
pure-ok a fs h = (ground arith, ap (λ (q : Outcome EngineError ℕ × Fs). q.1) h)

module _ {D : Type 0} ⦃f : Float D⦄ where
  verify_with-ok :
      (os : Os) (tmp : Text) (check : Result D → Outcome EngineError (Unit {0})) (fs : Fs)
      {u : Unit {0}} {fs' : Fs}
      → verify_with os tmp check fs ≡ (ok u, fs')
      → (fs' ≡ fs) × (out : Result D) × (probe (os.prober fs) tmp ≡ ok out) × (check out ≡ ok tt)
  verify_with-ok os tmp check fs h =
      elim (Outcome-cases (probe {D = D} ⦃f = f⦄ (os.prober fs) tmp)) [
        | inr (e, p) ↦ absurd (ground arith)
        | inl (out, p) ↦ elim (Outcome-cases (check out)) [
          | inr (e, c) ↦ absurd (ground arith)
          | inl (_, c) ↦ (ground arith, out, p, c)
        ]
      ]

  -- What a remux that succeeds has done, from the file system `fs` to `fs'`. At `mid` the tool has
  -- run, whatever changed until then.
  pub record Replaces (os : Os) (command : Text × List Text)
      (check : Result D → Outcome EngineError (Unit {0})) (tmp path : Text) (orig : FileInfo)
      (size : ℕ) (fs fs' : Fs) : Type 0 where
    pub mid : Fs
    pub ran : (os.exec command.0 command.1 fs).1 ≡ mid
    pub output : Result D
    pub probed : probe (os.prober mid) tmp ≡ ok output
    pub accepted : check output ≡ ok tt
    pub measured : (i : FileInfo) × (os.stat mid tmp ≡ some i) × (i.size ≡ size)
    pub swapped : SwappedIn os tmp path orig mid fs'

  module _ (os : Os) (tool : Text) (args : Text → List Text) where
    pub run_and_replace-Replaces :
        (label tmp path : Text) (tolerant : Bool)
        (check : Result D → Outcome EngineError (Unit {0})) (info : FileInfo) (fs : Fs) {size : ℕ}
        {fs' : Fs}
        → path ≢ tmp
        → run_and_replace os label (wrap_nice os tool (args tmp)) tolerant check tmp path info fs
          ≡ (ok size, fs')
        → Replaces os (wrap_nice os tool (args tmp)) check tmp path info size fs fs'
    unfolding run_and_replace
    run_and_replace-Replaces label tmp path tolerant check info fs {size} {fs'} ne h =
        let (r, fs1, x, h1) =
          bind-ok tmp (exec os (wrap_nice os tool (args tmp)))
            (exit_step os label tolerant check tmp path info) fs h in
        let (_, fs2, t, h2) =
          bind-ok tmp (throw_if (is_failure tolerant r) (tool_failed label (tail_of r.stderr 1000)))
            (λ _. verify_step os check tmp path info) fs1 h1 in
        let (_, fs3, v, h3) =
          bind-ok tmp (verify_with os tmp check) (λ _. stat_step os tmp path info) fs2 h2 in
        let (out, fs4, m, h4) =
          bind-ok tmp (stat_output os tmp) (swap_step os tmp path info) fs3 h3 in
        let (_, fs5, s, h5) =
          bind-ok tmp (replace_original os tmp path info) (λ _. pure out.size) fs4 h4 in
        let e2 = throw_if-ok (is_failure tolerant r) _ fs1 t in
        let (e3, output, probed, accepted) = verify_with-ok os tmp check fs2 v in
        let (e4, measured) = stat_output-ok os tmp fs3 m in
        let e1 : (os.exec (wrap_nice os tool (args tmp)).0 (wrap_nice os tool (args tmp)).1 fs).1
            ≡ fs1 =
          exec-ok os _ fs x in
        let (e6, e5) = pure-ok out.size fs5 h5 in
        record {
          mid = fs2;
          ran = e1 ∙ sym e2;
          output = output;
          probed = probed;
          accepted = accepted;
          measured = (out, subst (λ g. os.stat g tmp ≡ some out) e3 measured, e6);
          swapped = subst (SwappedIn os tmp path info fs2) e5 (
              subst (λ g. SwappedIn os tmp path info g fs5) (e4 ∙ e3)
                (replace_original-SwappedIn os tmp path info fs4 ne s));
        }
