-- ===== src/Engine/Frame.antt =====
-- What the actions of the engine leave alone: actions that write one path only, actions that write
-- one path only if they fail, and the inversion of a block that succeeds.
use muxprune.Base.{
  ◌≡◌, ◌≢◌, ◌∙◌, refl, Bool, true, false, Option, arith, Text, text_eq_iff, Outcome, ok, err,
}
use muxprune.Engine.{EngineError}
use muxprune.Engine.Io.{
  File, Fs, Os, Io, pure, throw, lift, throw_if, continue, ◌>>=◌, write_entry, remove_entry,
  with_cleanup,
}

-- No other path than `tmp` has another file.
abbrev pub SameBut : Text → Fs → Fs → Type 0
SameBut tmp fs fs' = (p : Text) → p ≢ tmp → fs' p ≡ fs p

pub SameBut-trans :
    (tmp : Text) (fs fs' fs'' : Fs)
    → SameBut tmp fs fs'
    → SameBut tmp fs' fs''
    → SameBut tmp fs fs''
SameBut-trans tmp fs fs' fs'' h k p ne = k p ne ∙ h p ne

pub SameBut-write_entry :
    (tmp : Text) (entry : Option File) (fs : Fs) → SameBut tmp fs (write_entry tmp entry fs)
SameBut-write_entry tmp entry fs p ne = ground (arith, text_eq_iff p tmp)

abbrev pub failed {ℓ} : {A : Type ℓ} → Outcome EngineError A → Bool
failed (ok a) = false
failed (err e) = true

pub record Framed {ℓ} (tmp : Text) {A : Type ℓ} (m : Io A) : Type ℓ where
  pub at : (fs : Fs) → SameBut tmp fs (m fs).1

pub record Failing {ℓ} (tmp : Text) {A : Type ℓ} (m : Io A) : Type ℓ where
  pub at : (fs : Fs) → failed (m fs).0 ≡ true → SameBut tmp fs (m fs).1

module _ {ℓ} (tmp : Text) {A : Type ℓ} where
  pub Framed-pure : (a : A) → Framed tmp (pure a)
  Framed-pure a = record { at = λ fs p ne. refl }

  pub Framed-throw : (e : EngineError) → Framed tmp (throw {A = A} e)
  Framed-throw e = record { at = λ fs p ne. refl }

  pub Framed-lift : (r : Outcome EngineError A) → Framed tmp (lift r)
  Framed-lift r = record { at = λ fs p ne. refl }

  pub Failing-of_Framed : (m : Io A) → Framed tmp m → Failing tmp m
  Failing-of_Framed m h = record { at = λ fs _. h.at fs }

  pub Failing-pure : (a : A) → Failing tmp (pure a)
  Failing-pure a = Failing-of_Framed (pure a) (Framed-pure a)

pub Framed-throw_if : (tmp : Text) (b : Bool) (e : EngineError) → Framed tmp (throw_if b e)
Framed-throw_if tmp true e = Framed-throw tmp e
Framed-throw_if tmp false e = Framed-pure tmp tt

module _ {ℓ κ} (tmp : Text) {A : Type ℓ} {B : Type κ} where
  Framed-continue :
      (fs : Fs) (r : Outcome EngineError A × Fs) (f : A → Io B)
      → SameBut tmp fs r.1
      → ((a : A) → Framed tmp (f a))
      → SameBut tmp fs (continue r f).1
  Framed-continue fs (ok a, fs') f h k = SameBut-trans tmp fs fs' (f a fs').1 h ((k a).at fs')
  Framed-continue fs (err e, fs') f h k = h

  pub Framed-bind :
      (m : Io A) (f : A → Io B) → Framed tmp m → ((a : A) → Framed tmp (f a)) → Framed tmp (m >>= f)
  Framed-bind m f h k = record { at = λ fs. Framed-continue fs (m fs) f (h.at fs) k }

  Failing-continue :
      (fs : Fs) (r : Outcome EngineError A × Fs) (f : A → Io B)
      → SameBut tmp fs r.1
      → ((a : A) → Failing tmp (f a))
      → failed (continue r f).0 ≡ true
      → SameBut tmp fs (continue r f).1
  Failing-continue fs (ok a, fs') f h k e = SameBut-trans tmp fs fs' (f a fs').1 h ((k a).at fs' e)
  Failing-continue fs (err x, fs') f h k e = h

  pub Failing-bind :
      (m : Io A) (f : A → Io B)
      → Framed tmp m
      → ((a : A) → Failing tmp (f a))
      → Failing tmp (m >>= f)
  Failing-bind m f h k = record { at = λ fs e. Failing-continue fs (m fs) f (h.at fs) k e }

  -- Also where the first part fails only, and what follows it cannot fail.
  Failing-continue-pure :
      (fs : Fs) (r : Outcome EngineError A × Fs) (f : A → B)
      → (failed r.0 ≡ true → SameBut tmp fs r.1)
      → failed (continue r (λ a. pure (f a))).0 ≡ true
      → SameBut tmp fs (continue r (λ a. pure (f a))).1
  Failing-continue-pure fs (ok a, fs') f h e = cc
  Failing-continue-pure fs (err x, fs') f h e = h refl

  pub Failing-bind-pure :
      (m : Io A) (f : A → B) → Failing tmp m → Failing tmp (m >>= λ a. pure (f a))
  Failing-bind-pure m f h = record { at = λ fs e. Failing-continue-pure fs (m fs) f (h.at fs) e }

  -- A block that succeeds has a first part that succeeds, and a rest that does from there.
  continue-ok :
      (r : Outcome EngineError A × Fs) (f : A → Io B) {b : B} {fs'' : Fs}
      → continue r f ≡ (ok b, fs'')
      → (a : A) × (fs' : Fs) × (r ≡ (ok a, fs')) × (f a fs' ≡ (ok b, fs''))
  continue-ok (ok a, fs') f h = (a, fs', refl, h)
  continue-ok (err e, fs') f h = cc

  pub bind-ok :
      (m : Io A) (f : A → Io B) (fs : Fs) {b : B} {fs'' : Fs}
      → (m >>= f) fs ≡ (ok b, fs'')
      → (a : A) × (fs' : Fs) × (m fs ≡ (ok a, fs')) × (f a fs' ≡ (ok b, fs''))
  bind-ok m f fs h = continue-ok (m fs) f h

pub SameBut-remove_entry :
    (os : Os) (tmp : Text) (fs : Fs) → SameBut tmp fs (remove_entry os tmp fs)
SameBut-remove_entry os tmp fs p ne = ground (arith, text_eq_iff p tmp)

pub Failing-with_cleanup :
    (os : Os) (tmp : Text) {A : Type 0} (m : Io A)
    → Failing tmp m
    → Failing tmp (with_cleanup os tmp m)
Failing-with_cleanup os tmp m h = record {
  at = λ fs e.
      SameBut-trans tmp fs (m fs).1 (remove_entry os tmp (m fs).1) (h.at fs e)
        (SameBut-remove_entry os tmp (m fs).1);
}

pub ruleset framed_rules = (
  Framed-pure, Framed-throw, Framed-lift, Framed-throw_if, Framed-bind, Failing-pure, Failing-bind,
)
