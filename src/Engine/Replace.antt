-- ===== src/Engine/Replace.antt =====
-- The parts that every remux shares: the guards on the file to replace, the temporary file, the
-- subprocess, and the replacement of the original.
use muxprune.Base.{
  ℕ, ◌-◌, Bool, true, false, not, ◌&&◌, ◌||◌, Option, none, some, List, [], ◌∷◌, ◌++◌, Text, text,
  is_empty, eq_ℤ, ltb, leb, ◌==◌, ok, err, if◌then◌else◌, length, take, drop, reverse,
}
use muxprune.Engine.{
  skipped_hardlinks, skipped_symlink, os_error, no_space, sync_failed, original_changed,
  rename_failed,
}
use muxprune.Engine.Io.{
  FileInfo, File, Fs, Os, Io, Ran, exit_ok, exit_one, pure, throw_if, ◌>>=◌, ◌>>◌, write_entry,
  modify_entry,
}

abbrev pub lstat : Text → Io FileInfo
lstat path fs = elim (fs path) [ none ↦ (err (os_error path), fs) | some f ↦ (ok f.info, fs) ]

unfoldable pub check_hardlinks : FileInfo → Bool → Io (Unit {0})
check_hardlinks info allow = throw_if (ltb 1 info.nlink && not allow) (skipped_hardlinks info.nlink)

unfoldable pub stat_replaceable : Text → Bool → Io FileInfo
unfolding check_hardlinks
stat_replaceable path allow = do
  info ← lstat path
  throw_if info.is_symlink (skipped_symlink path)
  check_hardlinks info allow
  pure info

-- `if free, err := freeSpace(dir); err == nil && free < size`
unfoldable pub check_space : Os → Text → FileInfo → Io (Unit {0})
check_space os d info fs = elim (os.free_space fs d) [
  | none ↦ (ok tt, fs)
  | some free ↦ throw_if (ltb free info.size) (no_space d info.size free) fs
]

-- `truncateBytes`, for a text in which the cut leaves no part of a character.
abbrev pub truncate_bytes : Text → ℕ → Text
truncate_bytes s n = if leb (length s) n then s else take n s

-- The pattern that `tempPath` hands to `os.CreateTemp`, for a base name and an extension.
abbrev pub temp_pattern : Text → Text → Text
temp_pattern b e = text "." ++ (truncate_bytes b 200 ++ (text ".muxprune.tmp.*" ++ e))

abbrev pub close_temp : Os → Text → Io Text
close_temp os name fs = elim (os.close_error fs name) [
  | some x ↦ (err (os_error x), fs)
  | none ↦ (ok name, fs)
]

-- `tempPath`: a hidden file of the same directory, which a failed `Close` leaves behind.
unfoldable pub temp_path : Os → Text → Text → Text → Io Text
temp_path os d b e fs = elim (os.temp_name fs d (temp_pattern b e)) [
  | err x ↦ (err (os_error x), fs)
  | ok name ↦ close_temp os name (write_entry name (some (os.temp_file fs name)) fs)
]

-- `wrapNice`
unfoldable pub wrap_nice : Os → Text → List Text → Text × List Text
wrap_nice os name args = if is_empty os.nice then (name, args) else (
  os.nice,
  text "-n"
      ∷ text "19"
      ∷ (if is_empty os.ionice
          then name ∷ args
          else os.ionice ∷ text "-c" ∷ text "3" ∷ name ∷ args),
)

abbrev pub exec : Os → Text × List Text → Io Ran
exec os (bin, args) fs = let (r, fs') = os.exec bin args fs in (ok r, fs')

-- `mkvWarningsOnly`: mkvmerge and mkvpropedit exit with 1 where they only warn.
abbrev pub warnings_only : Ran → Bool
warnings_only r = not r.cancelled && elim r.exit [ exit_one ↦ true | _ ↦ false ]

abbrev pub succeeded : Ran → Bool
succeeded r = elim r.exit [ exit_ok ↦ true | _ ↦ false ]

-- `tail` of standard error. ASCII white space is trimmed.
abbrev is_space : ℕ → Bool
is_space c = c == 32 || (leb 9 c && leb c 13)

trim_left : Text → Text
trim_left [] = []
trim_left (c ∷ s) = if is_space c then trim_left s else c ∷ s

unfoldable pub trim_space : Text → Text
unfolding trim_left
trim_space s = reverse (trim_left (reverse (trim_left s)))

unfoldable pub tail_of : Text → ℕ → Text
unfolding trim_space
tail_of s n =
    let t = trim_space s in if leb (length t) n then t else text "..." ++ drop (length t - n) t

-- `preserveAttrs`: failures are ignored, and a refused change of owner tries the group alone.
unfoldable pub preserve_attrs : Os → Text → FileInfo → Fs → Fs
preserve_attrs os tmp orig fs =
    let set_perm : File → File = λ x. record x { info = record x.info { perm = orig.perm } } in
    let set_owner : File → File =
      λ x. record x { info = record x.info { uid = orig.uid; gid = orig.gid } } in
    let set_group : File → File = λ x. record x { info = record x.info { gid = orig.gid } } in
    let fs' = if os.chmod_ok fs tmp then modify_entry tmp set_perm fs else fs in
    if os.chown_ok fs' tmp
    then modify_entry tmp set_owner fs'
    else if os.chgrp_ok fs' tmp
    then modify_entry tmp set_group fs'
    else fs'

abbrev pub same_file : FileInfo → FileInfo → Bool
same_file cur orig = cur.ino == orig.ino && (cur.size == orig.size && eq_ℤ cur.mtime orig.mtime)

abbrev pub unchanged_since : Option File → FileInfo → Bool
unchanged_since none orig = false
unchanged_since (some f) orig = same_file f.info orig

-- A rename of a file that is not there fails; otherwise it may fail with what `os` says.
unfoldable pub rename : Os → Text → Text → Io (Unit {0})
rename os src dst fs = elim (fs src) [
  | none ↦ (err (rename_failed (text "no such file or directory")), fs)
  | some f ↦ elim (os.rename_error fs src dst) [
    | some e ↦ (err (rename_failed e), fs)
    | none ↦ (ok tt, write_entry dst (some f) (write_entry src none fs))
  ]
]

unfoldable pub sync_file : Os → Text → Io (Unit {0})
sync_file os path fs = elim (os.open_error fs path) [
  | some e ↦ (err (os_error e), fs)
  | none ↦ elim (os.sync_error fs path) [ some e ↦ (err (sync_failed e), fs) | none ↦ (ok tt, fs) ]
]

-- The check and the rename at the end of `replaceOriginal`. The directory is synced after it, with
-- its errors ignored.
unfoldable pub swap_in : Os → Text → Text → FileInfo → Io (Unit {0})
unfolding rename
swap_in os tmp path orig fs =
    let renamed = rename os tmp path fs in
    if unchanged_since (fs path) orig then renamed else (err (original_changed path), fs)

unfoldable pub replace_original : Os → Text → Text → FileInfo → Io (Unit {0})
unfolding sync_file preserve_attrs swap_in
replace_original os tmp path orig = do
  sync_file os tmp
  λ fs. swap_in os tmp path orig (preserve_attrs os tmp orig fs)
