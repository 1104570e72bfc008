-- ===== src/Examples/Recycled.antt =====
-- A subtitle file that is moved by a copy, and a recycle directory with an old and a young file.
use muxprune.Base.{
  ℕ, ◌+◌, ◌≤◌, ◌≡◌, ◌≢◌, ◌⊎◌, refl, true, false, Option, none, some, List, [], ◌∷◌, arith, Text,
  text, text_eq, text_eq_refl, ℤ, pos, Outcome, ok, err, if◌then◌else◌, count_if,
}
use muxprune.Engine.Io.{FileInfo, File, Fs, Os}
use muxprune.Engine.Recycle.{Calls, candidate, unique_dst, is_taken, move_file, purge_loop}
use muxprune.Engine.Recycle.Moved.{MoveOutcome, move_file-MoveOutcome}
use muxprune.Engine.Recycle.Purged.{IsPurged, FirstFree, purge_loop-IsPurged, unique_dst-FirstFree}
use muxprune.Examples.Machine.{machine, info_of, disk}

abbrev sub : Text
sub = text "/m/a.srt"

abbrev lines : File
lines = record { info = info_of 8 20; content = text "1" }

abbrev with_sub : Fs
with_sub p = if text_eq p sub then some lines else disk p

-- A rename to another file system fails, so the file is copied.
abbrev two_disks : Os
two_disks = record machine {
  rename_error = λ fs src dst. if text_eq src sub then some (text "cross-device link") else none;
}

abbrev entries : List (Text × Option FileInfo)
entries =
    (text "20200101-000000_a.srt", some (info_of 9 20)) ∷ (text "b.srt", some (info_of 10 20)) ∷ []

abbrev pub calls : Calls
calls = record {
  mkdir_error = λ fs d. none;
  read = λ fs p. elim (fs p) [ none ↦ err (text "missing") | some x ↦ ok x.content ];
  create_error = λ fs p. none;
  new_file = λ fs p. record { info = info_of 11 0; content = [] };
  copy_error = λ fs p. none;
  read_dir = λ fs d. ok entries;
  parse_stamp = λ s. some (pos 3);
}

abbrev bin : Text
bin = text "/r/a.srt"

sub_there : with_sub sub ≡ some lines
unfolding text_eq
sub_there = refl

move_file-MoveOutcome_example :
    MoveOutcome sub bin lines (move_file two_disks calls sub bin with_sub)
move_file-MoveOutcome_example =
    move_file-MoveOutcome two_disks calls sub bin lines with_sub (λ e. ground arith)
      (λ e. ground arith) (λ content e. ground (arith, text_eq_refl sub)) sub_there

purge_loop-IsPurged_example :
    ((purge_loop machine calls (pos 5) (text "/r") entries 0 disk).1 bin ≡ disk bin)
    ⊎ (IsPurged calls (pos 5) (text "/r") entries bin
        × ((purge_loop machine calls (pos 5) (text "/r") entries 0 disk).1 bin ≡ none))
purge_loop-IsPurged_example =
    purge_loop-IsPurged machine calls (pos 5) (text "/r") entries 0 disk bin

abbrev taken_once : Fs
taken_once p = if text_eq p (text "/m/a.srt") then some lines else none

free_second : is_taken machine taken_once (candidate (text "/m") (text "a.srt") 1) ≡ false
unfolding candidate text_eq muxprune.Base.join_path muxprune.Base.trim_suffix
    muxprune.Base.has_suffix muxprune.Base.ext_from muxprune.Base.show_nat
free_second = refl

unique_dst-FirstFree_example :
    FirstFree machine taken_once
      (text "/m")
      (text "a.srt")
      0
      1
      (unique_dst machine taken_once (text "/m") (text "a.srt") 4 0)
unique_dst-FirstFree_example =
    unique_dst-FirstFree machine taken_once (text "/m") (text "a.srt") 0 1 4 free_second
      (omega arith)
