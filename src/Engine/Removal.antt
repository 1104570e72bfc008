-- ===== src/Engine/Removal.antt =====
-- A removal of tracks that succeeds, from the guards to the file that stands in the end.
use mathlib.Core.Path.{subst}
use muxprune.Base.{
  sub_ℕ, ◌≡◌, ◌≢◌, ◌∙◌, refl, sym, ap, Bool, true, false, none, some, List, [], ℕ, Text, text_eq,
  Outcome, ok, err, Float, if◌then◌else◌, Bool-cases, Option-cases, Outcome-cases, inl, inr, base,
  ext, dir,
}
use muxprune.Probe.{Result}
use muxprune.Probe.Run.{probe}
use muxprune.Engine.{
  os_error, spec_empty, EngineError, EngineResult, RemovalSpec, Options, Tools, normalise,
  with_output, verify_result,
}
use muxprune.Engine.Io.{
  FileInfo, File, Fs, Os, Io, pure, ◌>>=◌, continue, write_entry, remove_entry, with_cleanup,
}
use muxprune.Engine.Replace.{
  stat_replaceable, temp_pattern, close_temp, temp_path, wrap_nice, unchanged_since,
}
use muxprune.Engine.Remux.{
  run_and_replace, stem_of, remux, Prepared, prepare_removal, remove_tracks, dry_result,
  removal_result, removal_step,
}
use muxprune.Engine.Frame.{failed, SameBut-write_entry, SameBut-remove_entry, bind-ok}
use muxprune.Engine.Untouched.{NamesAreNew, WritesOutputOnly}
use muxprune.Engine.Replaced.{Replaces, run_and_replace-Replaces}
use muxprune.Engine.Verified.{Verified, verify_result-Verified}
use muxprune.Engine.Failure.{prepare_removal-ReadsOnly}

module _ {D : Type 0} ⦃f : Float D⦄ where
  -- From `fs` to `fs'`, the file at `path` was replaced by an output that passed `check`. `mid` is
  -- the file system once the command had run, with all that changed meanwhile.
  pub record Installed (os : Os) (command : Text → Text × List Text)
      (check : Result D → Outcome EngineError (Unit {0})) (path : Text) (orig : FileInfo) (size : ℕ)
      (fs fs' : Fs) : Type 0 where
    pub tmp : Text
    pub is_new : fs tmp ≡ none
    pub mid : Fs
    pub ran :
        (os.exec
          (command tmp).0
          (command tmp).1
          (write_entry tmp (some (os.temp_file fs tmp)) fs)).1
        ≡ mid
    pub output : Result D
    pub probed : probe (os.prober mid) tmp ≡ ok output
    pub accepted : check output ≡ ok tt
    pub measured : (i : FileInfo) × (os.stat mid tmp ≡ some i) × (i.size ≡ size)
    pub original_kept : unchanged_since (mid path) orig ≡ true
    pub moved :
        (x : File) × (y : File) × (mid tmp ≡ some x) × (fs' path ≡ some y) × (y.content ≡ x.content)
    pub others : (p : Text) → p ≢ tmp → p ≢ path → fs' p ≡ mid p

cleanup-ok :
    (os : Os) (tmp : Text) {A : Type 0} (m : Io A) (fs : Fs) {a : A} {fs' : Fs}
    → with_cleanup os tmp m fs ≡ (ok a, fs')
    → (m fs ≡ (ok a, (m fs).1)) × (fs' ≡ remove_entry os tmp (m fs).1)
cleanup-ok os tmp {A} m fs {a} {fs'} h =
    let e : (m fs).0 ≡ ok a = ap (λ (q : Outcome EngineError A × Fs). q.0) h in
    ((λ i. (e i, (m fs).1)), sym (ap (λ (q : Outcome EngineError A × Fs). q.1) h))

pure-ok :
    {A : Type 0} (a : A) (fs : Fs) {b : A} {fs' : Fs}
    → pure a fs ≡ (ok b, fs')
    → (a ≡ b) × (fs ≡ fs')
pure-ok {A} a fs h = (cc, ap (λ (q : Outcome EngineError A × Fs). q.1) h)

-- The command that is run for a temporary file.
abbrev pub wrapped : Os → Text → (Text → List Text) → Text → Text × List Text
wrapped os tool args tmp = wrap_nice os tool (args tmp)

module _ {D : Type 0} ⦃f : Float D⦄ (os : Os) (tool : Text) (args : Text → List Text)
    (w : NamesAreNew os) where
  Installed-of_Replaces :
      (check : Result D → Outcome EngineError (Unit {0})) (tmp path : Text) (orig : FileInfo)
      (size : ℕ) (fs fs' : Fs)
      → fs tmp ≡ none
      → path ≢ tmp
      → Replaces os
          (wrapped os tool args tmp)
          check
          tmp
          path
          orig
          size
          (write_entry tmp (some (os.temp_file fs tmp)) fs)
          fs'
      → Installed os (wrapped os tool args) check path orig size fs (remove_entry os tmp fs')
  Installed-of_Replaces check tmp path orig size fs fs' new ne r =
      let clean : (p : Text) → p ≢ tmp → remove_entry os tmp fs' p ≡ fs' p =
        SameBut-remove_entry os tmp fs' in
      let (x, y, ex, ey, c) = r.swapped.new_file in
      record {
        tmp = tmp;
        is_new = new;
        mid = r.mid;
        ran = r.ran;
        output = r.output;
        probed = r.probed;
        accepted = r.accepted;
        measured = r.measured;
        original_kept = r.swapped.still_there;
        moved = (x, y, ex, clean path ne ∙ ey, c);
        others = λ p n m. clean p n ∙ r.swapped.others p n m;
      }

  remux-temp_error :
      (label : Text) (tolerant : Bool) (check : Result D → Outcome EngineError (Unit {0}))
      (path : Text) (info : FileInfo) (fs : Fs) {e : Text}
      → os.temp_name fs (dir path) (temp_pattern (stem_of path) (ext path)) ≡ err e
      → remux os label tool args tolerant check path info fs ≡ (err (os_error e), fs)
  unfolding remux temp_path
  remux-temp_error label tolerant check path info fs n = rw (n, temp_path)

  remux-close_error :
      (label : Text) (tolerant : Bool) (check : Result D → Outcome EngineError (Unit {0}))
      (path : Text) (info : FileInfo) (fs : Fs) {tmp e : Text}
      → os.temp_name fs (dir path) (temp_pattern (stem_of path) (ext path)) ≡ ok tmp
      → os.close_error (write_entry tmp (some (os.temp_file fs tmp)) fs) tmp ≡ some e
      → (remux os label tool args tolerant check path info fs).0 ≡ err (os_error e)
  unfolding remux temp_path
  remux-close_error label tolerant check path info fs n c =
      rw (n, temp_path) (rw (c, close_temp, continue) refl)

  remux-temp_ok :
      (label : Text) (tolerant : Bool) (check : Result D → Outcome EngineError (Unit {0}))
      (path : Text) (info : FileInfo) (fs : Fs) {tmp : Text}
      → os.temp_name fs (dir path) (temp_pattern (stem_of path) (ext path)) ≡ ok tmp
      → os.close_error (write_entry tmp (some (os.temp_file fs tmp)) fs) tmp ≡ none
      → remux os label tool args tolerant check path info fs
        ≡ (with_cleanup os tmp (
                run_and_replace os label
                  (wrap_nice os tool (args tmp))
                  tolerant
                  check
                  tmp
                  path
                  info)
              >>= λ size. pure (tmp, size))
            (write_entry tmp (some (os.temp_file fs tmp)) fs)
  unfolding remux temp_path
  remux-temp_ok label tolerant check path info fs n c =
      rw (n, temp_path) (rw (c, close_temp, continue) refl)

  remux-Installed :
      (label : Text) (tolerant : Bool) (check : Result D → Outcome EngineError (Unit {0}))
      (path : Text) (info : FileInfo) (fs : Fs) {out : Text × ℕ} {fs' : Fs}
      → fs path ≢ none
      → remux os label tool args tolerant check path info fs ≡ (ok out, fs')
      → Installed os (wrapped os tool args) check path info out.1 fs fs'
  remux-Installed label tolerant check path info fs {out} {fs'} there h =
      elim (Outcome-cases (os.temp_name fs (dir path) (temp_pattern (stem_of path) (ext path)))) [
        | inr (e, n) ↦ absurd (cc (remux-temp_error label tolerant check path info fs n, h))
        | inl (tmp, n) ↦
            elim (Option-cases
              (os.close_error (write_entry tmp (some (os.temp_file fs tmp)) fs) tmp)) [
                | inr (e, c) ↦
                    absurd (cc (remux-close_error label tolerant check path info fs n c, h))
                | inl c ↦
                    installed tmp (w fs _ _ tmp n)
                      (sym (remux-temp_ok label tolerant check path info fs n c) ∙ h)
              ]
      ]
    where
      installed :
          (tmp : Text)
          → fs tmp ≡ none
          → (with_cleanup os tmp (
                  run_and_replace os label
                    (wrap_nice os tool (args tmp))
                    tolerant
                    check
                    tmp
                    path
                    info)
                >>= λ size. pure (tmp, size))
              (write_entry tmp (some (os.temp_file fs tmp)) fs)
            ≡ (ok out, fs')
          → Installed os (wrapped os tool args) check path info out.1 fs fs'
      installed tmp new e =
          let run =
            run_and_replace os label (wrap_nice os tool (args tmp)) tolerant check tmp path info in
          let start = write_entry tmp (some (os.temp_file fs tmp)) fs in
          let (size, fs2, c, q) =
            bind-ok tmp (with_cleanup os tmp run) (λ (n : ℕ). pure (tmp, n)) start e in
          let (same_out, same_fs) = pure-ok (tmp, size) fs2 q in
          let (r, cleaned) = cleanup-ok os tmp run start c in
          let ne : path ≢ tmp = λ same. there (ap fs same ∙ new) in
          let done =
            Installed-of_Replaces check tmp path info size fs (run start).1 new ne (
              run_and_replace-Replaces os tool args label tmp path tolerant check info start ne
                r) in
          subst (λ (o : Text × ℕ). Installed os (wrapped os tool args) check path info o.1 fs fs')
            same_out
            (subst (Installed os (wrapped os tool args) check path info size fs)
              (sym cleaned ∙ same_fs) done)

-- The file to prune is there when the guards have passed.
prepare_removal-there :
    {D : Type 0} (f : Float D) (os : Os) (tools : Tools) (path : Text) (spec : RemovalSpec)
    (opts : Options) (fs : Fs)
    → fs path ≡ none
    → failed (prepare_removal ⦃f = f⦄ os tools path spec opts fs).0 ≡ true
unfolding prepare_removal stat_replaceable
prepare_removal-there f os tools path spec opts fs e = elim (Bool-cases (spec_empty spec)) [
  | inl t ↦ rw t refl
  | inr t ↦ rw t (rw e refl)
]

else_branch :
    {A : Type 0} (b : Bool) (x y : Io A) (fs : Fs) {z : Outcome EngineError A × Fs}
    → b ≡ false
    → (if b then x else y) fs ≡ z
    → y fs ≡ z
else_branch true x y fs e h = cc
else_branch false x y fs e h = h

abbrev pub removal_command : {D : Type 0} → Os → Prepared D → Text → Text × List Text
removal_command os p = wrapped os p.tool (with_output p.tool p.args)

module _ {D : Type 0} (f : Float D) (os : Os) (tools : Tools) (path : Text) (spec : RemovalSpec)
    (opts : Options) (fs : Fs) (w : NamesAreNew os) where
  InstalledBy : Prepared D → ℕ → Fs → Type 0
  InstalledBy p size fs' =
      Installed ⦃f = f⦄ os (removal_command os p) (verify_result ⦃f = f⦄ p.probed (normalise spec))
        path p.info size fs fs'

  removal_step-InstalledBy :
      (p : Prepared D) {res : EngineResult} {fs' : Fs}
      → fs path ≢ none
      → removal_step f os tools path spec p fs ≡ (ok res, fs')
      → (size : ℕ) × InstalledBy p size fs' × (res.bytes_saved ≡ sub_ℕ p.info.size size)
  unfolding InstalledBy
  removal_step-InstalledBy p {res} {fs'} there h =
      let check = verify_result ⦃f = f⦄ p.probed (normalise spec) in
      let args = with_output p.tool p.args in
      let tolerant = text_eq p.tool tools.mkvmerge in
      let (out, fs2, r, q) =
        bind-ok path (remux ⦃f = f⦄ os (base p.tool) p.tool args tolerant check path p.info)
          (λ o. pure (removal_result p o)) fs h in
      let (same_res, same_fs) = pure-ok (removal_result p out) fs2 q in
      (
        out.1,
        subst (InstalledBy p out.1) same_fs (
            remux-Installed ⦃f = f⦄ os p.tool args w (base p.tool) tolerant check path p.info fs
              there r),
        ap (λ (x : EngineResult). x.bytes_saved) (sym same_res),
      )

  installed_of_prepared :
      (p : Prepared D) (fs1 : Fs) {res : EngineResult} {fs' : Fs}
      → opts.dry_run ≡ false
      → prepare_removal ⦃f = f⦄ os tools path spec opts fs ≡ (ok p, fs1)
      → (if opts.dry_run then pure (dry_result f spec p) else removal_step f os tools path spec p)
          fs1
        ≡ (ok res, fs')
      → (prepare_removal ⦃f = f⦄ os tools path spec opts fs ≡ (ok p, fs))
        × (size : ℕ) × InstalledBy p size fs'
        × (res.bytes_saved ≡ sub_ℕ p.info.size size)
  installed_of_prepared p fs1 {res} {fs'} real e k =
      let same : fs1 ≡ fs =
        sym (ap (λ (q : Outcome EngineError (Prepared D) × Fs). q.1) e)
        ∙ (prepare_removal-ReadsOnly f os tools path spec opts).at fs in
      let there : fs path ≢ none =
        λ gone. cc (prepare_removal-there f os tools path spec opts fs gone, e) in
      let step = removal_step f os tools path spec p in
      let k' = else_branch opts.dry_run (pure (dry_result f spec p)) step fs1 real k in
      let (size, done, saved) =
        removal_step-InstalledBy p there (subst (λ g. step g ≡ (ok res, fs')) same k') in
      (
        subst (λ g. prepare_removal ⦃f = f⦄ os tools path spec opts fs ≡ (ok p, g)) same e,
        size,
        done,
        saved,
      )

-- A removal of tracks that returns without an error, and was no dry run: the guards had passed on
-- the file system as it was, and one command was run, for a new temporary file. Whatever files had
-- changed by the time the command ended, the file at `path` was then still the one that the guards
-- had passed (the same inode, size and time); in the end `path` has the content that the temporary
-- file had then, an output that the verification accepted, so it has all video streams and exactly
-- as many audio and subtitle streams less as were named; the bytes reported are the difference of
-- the two sizes; and every file but these two is as it was when the command ended.
pub remove_tracks_installs :
    {D : Type 0} (f : Float D) (os : Os) (tools : Tools) (path : Text) (spec : RemovalSpec)
    (opts : Options) (fs : Fs) {res : EngineResult} {fs' : Fs}
    → NamesAreNew os
    → opts.dry_run ≡ false
    → remove_tracks f os tools path spec opts fs ≡ (ok res, fs')
    → (p : Prepared D) × (size : ℕ) × (prepare_removal ⦃f = f⦄ os tools path spec opts fs
        ≡ (ok p, fs))
      × (done : Installed ⦃f = f⦄ os
          (removal_command os p)
          (verify_result ⦃f = f⦄ p.probed (normalise spec))
          path
          p.info
          size
          fs
          fs')
      × Verified ⦃f = f⦄ p.probed (normalise spec) done.output
      × (res.bytes_saved ≡ sub_ℕ p.info.size size)
unfolding remove_tracks InstalledBy
remove_tracks_installs f os tools path spec opts fs w real h =
    let (p, fs1, e, k) =
      bind-ok path (prepare_removal ⦃f = f⦄ os tools path spec opts)
        (λ p.
          if opts.dry_run then pure (dry_result f spec p) else removal_step f os tools path spec p)
        fs h in
    let (passed, size, done, saved) =
      installed_of_prepared f os tools path spec opts fs w p fs1 real e k in
    (
      p,
      size,
      passed,
      done,
      verify_result-Verified ⦃f = f⦄ p.probed (normalise spec) done.output done.accepted,
      saved,
    )

-- A removal of tracks that returns without an error, with tools that write their output only, has
-- left every file but the one at `path` as it was.
pub remove_tracks_keeps_others :
    {D : Type 0} (f : Float D) (os : Os) (tools : Tools) (path : Text) (spec : RemovalSpec)
    (opts : Options) (fs : Fs) {res : EngineResult} {fs' : Fs}
    → ((tool : Text) (args : List Text) → WritesOutputOnly os tool (with_output tool args))
    → opts.dry_run ≡ false
    → remove_tracks f os tools path spec opts fs ≡ (ok res, fs')
    → (p : Text) → fs p ≢ none
    → p ≢ path
    → fs' p ≡ fs p
remove_tracks_keeps_others f os tools path spec opts fs w real h p there ne =
    let new : NamesAreNew os = λ g d b n e. (w [] []).name_is_new g d b n e in
    let (q, size, _, done, _, _) = remove_tracks_installs f os tools path spec opts fs new real h in
    let ne_tmp : p ≢ done.tmp = λ e. there (ap fs e ∙ done.is_new) in
    let start = write_entry done.tmp (some (os.temp_file fs done.tmp)) fs in
    done.others p ne_tmp ne
    ∙ ap (λ (g : Fs). g p) (sym done.ran)
    ∙ (w q.tool q.args).tool_writes done.tmp start p ne_tmp
    ∙ SameBut-write_entry done.tmp (some (os.temp_file fs done.tmp)) fs p ne_tmp
