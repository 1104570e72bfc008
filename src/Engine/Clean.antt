-- ===== src/Engine/Clean.antt =====
-- Actions that write nothing, and actions that fail cleanly: if they fail, every file that was there
-- is there as it was. (A temporary file may stay behind, where its removal fails.)
use mathlib.Core.Path.{subst}
use muxprune.Base.{
  ◌≡◌, ◌≢◌, ◌∙◌, refl, sym, Bool, true, false, none, Text, Outcome, ok, err, if◌then◌else◌,
}
use muxprune.Engine.{EngineError}
use muxprune.Engine.Io.{Fs, Io, pure, lift, throw_if, continue, ◌>>=◌}
use muxprune.Engine.Frame.{failed}

pub record ReadsOnly {ℓ} {A : Type ℓ} (m : Io A) : Type ℓ where
  pub at : (fs : Fs) → (m fs).1 ≡ fs

abbrev pub KeepsFiles : Fs → Fs → Type 0
KeepsFiles fs fs' = (p : Text) → fs p ≢ none → fs' p ≡ fs p

pub record FailsClean {ℓ} {A : Type ℓ} (m : Io A) : Type ℓ where
  pub at : (fs : Fs) → failed (m fs).0 ≡ true → KeepsFiles fs (m fs).1

module _ {ℓ} {A : Type ℓ} where
  pub ReadsOnly-pure : (a : A) → ReadsOnly (pure a)
  ReadsOnly-pure a = record { at = λ fs. refl }

  pub ReadsOnly-lift : (r : Outcome EngineError A) → ReadsOnly (lift r)
  ReadsOnly-lift r = record { at = λ fs. refl }

  pub FailsClean-of_ReadsOnly : (m : Io A) → ReadsOnly m → FailsClean m
  FailsClean-of_ReadsOnly m h = record { at = λ fs _ p _. rw (h.at fs) }

  pub FailsClean-pure : (a : A) → FailsClean (pure a)
  FailsClean-pure a = record { at = λ fs _ p _. refl }

  pub FailsClean-if :
      (b : Bool) (m n : Io A) → FailsClean m → FailsClean n → FailsClean (if b then m else n)
  FailsClean-if true m n h k = h
  FailsClean-if false m n h k = k

pub ReadsOnly-throw_if : (b : Bool) (e : EngineError) → ReadsOnly (throw_if b e)
ReadsOnly-throw_if true e = record { at = λ fs. refl }
ReadsOnly-throw_if false e = record { at = λ fs. refl }

module _ {ℓ κ} {A : Type ℓ} {B : Type κ} where
  ReadsOnly-continue :
      (r : Outcome EngineError A × Fs) (f : A → Io B)
      → ((a : A) → ReadsOnly (f a))
      → (continue r f).1 ≡ r.1
  ReadsOnly-continue (ok a, fs) f k = (k a).at fs
  ReadsOnly-continue (err e, fs) f k = refl

  pub ReadsOnly-bind :
      (m : Io A) (f : A → Io B) → ReadsOnly m → ((a : A) → ReadsOnly (f a)) → ReadsOnly (m >>= f)
  ReadsOnly-bind m f h k = record { at = λ fs. ReadsOnly-continue (m fs) f k ∙ h.at fs }

  FailsClean-continue :
      (fs : Fs) (r : Outcome EngineError A × Fs) (f : A → Io B)
      → r.1 ≡ fs
      → ((a : A) → FailsClean (f a))
      → failed (continue r f).0 ≡ true
      → KeepsFiles fs (continue r f).1
  FailsClean-continue fs (ok a, fs') f h k e = rw (← h) ((k a).at fs' e)
  FailsClean-continue fs (err x, fs') f h k e = λ p _. rw h

  pub FailsClean-bind :
      (m : Io A) (f : A → Io B) → ReadsOnly m → ((a : A) → FailsClean (f a)) → FailsClean (m >>= f)
  FailsClean-bind m f h k = record { at = λ fs. FailsClean-continue fs (m fs) f (h.at fs) k }

  FailsClean-continue-pure :
      (fs : Fs) (r : Outcome EngineError A × Fs) (f : A → B)
      → (failed r.0 ≡ true → KeepsFiles fs r.1)
      → failed (continue r (λ a. pure (f a))).0 ≡ true
      → KeepsFiles fs (continue r (λ a. pure (f a))).1
  FailsClean-continue-pure fs (ok a, fs') f h e = cc
  FailsClean-continue-pure fs (err x, fs') f h e = h refl

  pub FailsClean-bind-pure :
      (m : Io A) (f : A → B) → FailsClean m → FailsClean (m >>= λ a. pure (f a))
  FailsClean-bind-pure m f h = record { at = λ fs. FailsClean-continue-pure fs (m fs) f (h.at fs) }

  after-continue :
      (P : Fs → Type 0) (fs : Fs) (r : Outcome EngineError A × Fs) (f : A → Io B)
      → r.1 ≡ fs
      → P fs
      → ((a : A) → r ≡ (ok a, fs) → P (f a fs).1)
      → P (continue r f).1
  after-continue P fs (ok a, fs') f h p k =
      subst (λ g. P (f a g).1) (sym h) (k a (λ i. (ok a, h i)))
  after-continue P fs (err x, fs') f h p k = subst P (sym h) p

  -- What holds of the file system before, and after the rest of a block wherever its first part
  -- succeeds, holds after the block, if that part writes nothing.
  pub after-bind :
      (P : Fs → Type 0) (m : Io A) (f : A → Io B) (fs : Fs)
      → ReadsOnly m
      → P fs
      → ((a : A) → m fs ≡ (ok a, fs) → P (f a fs).1)
      → P ((m >>= f) fs).1
  after-bind P m f fs h p k = after-continue P fs (m fs) f (h.at fs) p k
