-- ===== src/Engine/Io.antt =====
-- The file system as the engine sees it, and the calls of the operating system that it makes. What
-- an operation did before it failed stays done, so the file system comes back beside an error.
use muxprune.Base.{
  ℕ, Bool, true, false, Option, none, some, List, Text, text_eq, ℤ, Outcome, ok, err, if◌then◌else◌,
}
use muxprune.Probe.Run.{Prober}
use muxprune.Engine.{EngineError}

-- What `Lstat` shows. `ino` stands for the device and inode that `os.SameFile` compares.
pub record FileInfo : Type 0 where
  pub ino : ℕ
  pub size : ℕ
  pub mtime : ℤ
  pub is_symlink : Bool
  pub is_dir : Bool
  pub nlink : ℕ
  pub perm : ℕ
  pub uid : ℕ
  pub gid : ℕ

pub record File : Type 0 where
  pub info : FileInfo
  pub content : Text

abbrev pub Fs : Type 0
Fs = Text → Option File

abbrev pub write_entry : Text → Option File → Fs → Fs
write_entry path entry fs p = if text_eq p path then entry else fs p

abbrev pub on_entry : (File → File) → Option File → Option File
on_entry f none = none
on_entry f (some x) = some (f x)

abbrev pub modify_entry : Text → (File → File) → Fs → Fs
modify_entry path f fs = write_entry path (on_entry f (fs path)) fs

-- How a subprocess ended: exit status 0, another exit status, or it could not run; whether the
-- context was cancelled by then; and its standard error.
pub data Exit : Type 0 where
  exit_ok exit_one exit_other cannot_run : Exit

pub record Ran : Type 0 where
  pub exit : Exit
  pub cancelled : Bool
  pub stderr : Text

-- The operating system and the programs that the engine starts.
pub record Os : Type 0 where
  pub prober : Fs → Prober
  -- `os.Stat`, which follows links
  pub stat : Fs → Text → Option FileInfo
  -- `filepath.Abs` and `filepath.EvalSymlinks`
  pub abs : Text → Outcome Text Text
  pub eval_symlinks : Fs → Text → Option Text
  pub free_space : Fs → Text → Option ℕ
  -- the name that `os.CreateTemp(dir, pattern)` picks, or its error, and the file that it makes
  pub temp_name : Fs → Text → Text → Outcome Text Text
  pub temp_file : Fs → Text → File
  -- the error of closing it
  pub close_error : Fs → Text → Option Text
  pub exec : Text → List Text → Fs → Ran × Fs
  pub open_error : Fs → Text → Option Text
  pub sync_error : Fs → Text → Option Text
  pub chmod_ok : Fs → Text → Bool
  pub chown_ok : Fs → Text → Bool
  pub chgrp_ok : Fs → Text → Bool
  pub rename_error : Fs → Text → Text → Option Text
  pub remove_ok : Fs → Text → Bool
  -- the paths of `nice` and of a usable `ionice`; the empty text where there is none
  pub nice : Text
  pub ionice : Text

abbrev pub Io {ℓ} : Type ℓ → Type ℓ
Io A = Fs → Outcome EngineError A × Fs

module _ {ℓ} {A : Type ℓ} where
  abbrev pub pure : A → Io A
  pure a fs = (ok a, fs)

  abbrev pub throw : EngineError → Io A
  throw e fs = (err e, fs)

  abbrev pub lift : Outcome EngineError A → Io A
  lift r fs = (r, fs)

abbrev pub continue {ℓ κ} :
    {A : Type ℓ} {B : Type κ} → Outcome EngineError A × Fs → (A → Io B) → Outcome EngineError B × Fs
continue (ok a, fs) f = f a fs
continue (err e, fs) f = (err e, fs)

infixl 5 ◌>>=◌ ◌>>◌
abbrev pub ◌>>=◌ {ℓ κ} : {A : Type ℓ} {B : Type κ} → Io A → (A → Io B) → Io B
◌>>=◌ m f fs = continue (m fs) f

abbrev pub ◌>>◌ {ℓ} : {B : Type ℓ} → Io (Unit {0}) → Io B → Io B
m >> k = m >>= λ _. k

abbrev pub throw_if : Bool → EngineError → Io (Unit {0})
throw_if true e = throw e
throw_if false e = pure tt

-- `defer os.Remove(tmp)`: whatever the result, the file goes, unless the call fails.
abbrev pub remove_entry : Os → Text → Fs → Fs
remove_entry os path fs = if os.remove_ok fs path then write_entry path none fs else fs

abbrev pub with_cleanup : Os → Text → {A : Type 0} → Io A → Io A
with_cleanup os tmp m fs = let (r, fs') = m fs in (r, remove_entry os tmp fs')
