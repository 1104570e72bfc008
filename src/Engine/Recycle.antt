-- ===== src/Engine/Recycle.antt =====
-- `DeleteSidecar`, `PurgeRecycle` and what they call: external subtitle files go to the recycle
-- directory or for good.
pub mod Moved
pub mod Purged
use muxprune.Base.{
  ℕ, zero, suc, ◌+◌, ◌-◌, Bool, true, false, not, ◌&&◌, ◌||◌, Option, none, some, List, [], ◌∷◌,
  ◌++◌, Text, text, text_eq, to_lower, is_empty, ℤ, pos, ltb_ℤ, leb, ltb, Outcome, ok, err,
  if◌then◌else◌, length, take, exists_in, show_nat, ext, base, trim_suffix, join_path,
}
use muxprune.Engine.{EngineError, EngineResult, os_error, not_a_subtitle}
use muxprune.Engine.Io.{
  FileInfo, File, Fs, Os, Io, pure, throw, throw_if, ◌>>=◌, ◌>>◌, write_entry, remove_entry,
}
use muxprune.Engine.Replace.{truncate_bytes, rename}

-- The further calls of the system, with their errors.
pub record Calls : Type 0 where
  pub mkdir_error : Fs → Text → Option Text
  -- `os.Open` and what there is to read
  pub read : Fs → Text → Outcome Text Text
  pub create_error : Fs → Text → Option Text
  pub new_file : Fs → Text → File
  -- the error of `io.Copy`, `Sync` or `Close`, and the file as it is then
  pub copy_error : Fs → Text → Option (Text × File)
  -- `os.ReadDir`: the names with their information, or whether the directory is missing
  pub read_dir : Fs → Text → Outcome Bool (List (Text × Option FileInfo))
  -- `time.Parse(recycleStamp, s)`
  pub parse_stamp : Text → Option ℤ

abbrev pub subtitle_exts : List Text
subtitle_exts =
    text ".srt"
    ∷ text ".ass"
    ∷ text ".ssa"
    ∷ text ".sub"
    ∷ text ".idx"
    ∷ text ".vtt"
    ∷ text ".smi"
    ∷ text ".sup"
    ∷ []

unfoldable pub is_subtitle_path : Text → Bool
is_subtitle_path path = exists_in (λ e. text_eq e (to_lower (ext path))) subtitle_exts

-- The names that `uniqueDst` tries: the first without a number.
abbrev pub stem_part : Text → Text
stem_part name = truncate_bytes (trim_suffix name (ext name)) (200 - length (ext name))

unfoldable pub candidate : Text → Text → ℕ → Text
candidate d name zero = join_path d (stem_part name ++ ext name)
candidate d name (suc i) =
    join_path d (stem_part name ++ (text "_" ++ (show_nat (suc i) ++ ext name)))

abbrev pub is_taken : Os → Fs → Text → Bool
is_taken os fs p = elim (os.stat fs p) [ none ↦ false | some _ ↦ true ]

-- `uniqueDst`: the loop from name `i` on, for so many rounds; `none` when they are used up.
unfoldable pub unique_dst : Os → Fs → Text → Text → ℕ → ℕ → Option Text
unique_dst os fs d name zero i = none
unique_dst os fs d name (suc rounds) i =
    let rest = unique_dst os fs d name rounds (suc i) in
    if is_taken os fs (candidate d name i) then rest else some (candidate d name i)

abbrev pub part_of : Text → Text
part_of dst = dst ++ text ".part"

-- `os.Remove`
unfoldable pub remove : Os → Text → Io (Unit {0})
remove os path fs =
    if os.remove_ok fs path then (ok tt, write_entry path none fs) else (err (os_error path), fs)

-- A step that failed removes the partial copy, whether it can or not.
abbrev pub give_up : Os → Text → EngineError → Io (Unit {0})
give_up os part e fs = (err e, remove_entry os part fs)

abbrev pub after_rename :
    Os → Text → Text → Outcome EngineError (Unit {0}) × Fs → Outcome EngineError (Unit {0}) × Fs
after_rename os src dst (ok u, fs) = remove os src fs
after_rename os src dst (err e, fs) = give_up os (part_of dst) e fs

abbrev pub finish_copy : Os → Text → Text → Io (Unit {0})
finish_copy os src dst fs = after_rename os src dst (rename os (part_of dst) dst fs)

abbrev pub copy_into : Os → Calls → Text → Text → Text → Io (Unit {0})
copy_into os calls src dst content fs =
    let made = calls.new_file fs (part_of dst) in
    elim (calls.copy_error fs (part_of dst)) [
      | some (e, left) ↦
          give_up os (part_of dst) (os_error e) (write_entry (part_of dst) (some left) fs)
      | none ↦
          finish_copy os src dst
            (write_entry (part_of dst) (some (record made { content = content })) fs)
    ]

abbrev pub copy_over : Os → Calls → Text → Text → Io (Unit {0})
copy_over os calls src dst fs = elim (calls.read fs src) [
  | err e ↦ (err (os_error e), fs)
  | ok content ↦ elim (calls.create_error fs (part_of dst)) [
    | some e ↦ (err (os_error e), fs)
    | none ↦ copy_into os calls src dst content fs
  ]
]

abbrev pub or_copy :
    Os
    → Calls
    → Text
    → Text
    → Outcome EngineError (Unit {0}) × Fs
    → Outcome EngineError (Unit {0}) × Fs
or_copy os calls src dst (ok u, fs) = (ok u, fs)
or_copy os calls src dst (err e, fs) = copy_over os calls src dst fs

-- `moveFile`: a rename, or a copy that is renamed and a removal.
unfoldable pub move_file : Os → Calls → Text → Text → Io (Unit {0})
unfolding rename remove
move_file os calls src dst fs = or_copy os calls src dst (rename os src dst fs)

abbrev pub fs_result : ℕ → Bool → Text → EngineResult
fs_result size dry command = record {
  tool = text "fs";
  command = command;
  bytes_saved = pos size;
  dry_run = dry;
}

abbrev pub recycle_to : Os → Calls → Text → ℕ → Option Text → Io EngineResult
recycle_to os calls path size none = throw (os_error (text "no free name"))
recycle_to os calls path size (some dst) = do
  move_file os calls path dst
  pure (fs_result size false (text "recycle " ++ (path ++ (text " -> " ++ dst))))

-- The name under which a sidecar is recycled, `stamp` being the time in UTC.
abbrev pub recycled_name : Text → Text → Text
recycled_name stamp path = stamp ++ (text "_" ++ base path)

abbrev pub stat_sidecar : Os → Text → Io FileInfo
stat_sidecar os path fs = elim (os.stat fs path) [
  | none ↦ (err (os_error path), fs)
  | some i ↦ (ok i, fs)
]

abbrev pub make_dir : Calls → Text → Io (Unit {0})
make_dir calls d fs = elim (calls.mkdir_error fs d) [
  | some e ↦ (err (os_error e), fs)
  | none ↦ (ok tt, fs)
]

abbrev pub recycle : Os → Calls → ℕ → Text → Text → Text → FileInfo → Io EngineResult
recycle os calls rounds d stamp path info = do
  make_dir calls d
  λ fs.
      recycle_to os calls path info.size (unique_dst os fs d (recycled_name stamp path) rounds 0) fs

abbrev pub delete_for_good : Os → Text → FileInfo → Io EngineResult
delete_for_good os path info = do
  remove os path
  pure (fs_result info.size false (text "delete " ++ path))

-- `d` is the recycle directory, the empty text where there is none.
unfoldable pub delete_sidecar : Os → Calls → ℕ → Text → Text → Text → Bool → Io EngineResult
unfolding unique_dst move_file remove
delete_sidecar os calls rounds d stamp path dry = do
  info ← stat_sidecar os path
  throw_if (info.is_dir || not (is_subtitle_path path)) (not_a_subtitle path)
  if dry
      then pure (fs_result info.size true (text "delete " ++ path))
      else if is_empty d
      then delete_for_good os path info
      else recycle os calls rounds d stamp path info

-- `len(recycleStamp)`
abbrev pub stamp_length : ℕ
stamp_length = 15

abbrev pub parsed_or : Option ℤ → ℤ → ℤ
parsed_or none t = t
parsed_or (some t) _ = t

abbrev pub age_of : Calls → Text → FileInfo → ℤ
age_of calls name info =
    if ltb stamp_length (length name)
    then parsed_or (calls.parse_stamp (take stamp_length name)) info.mtime
    else info.mtime

abbrev pub is_expired : Calls → ℤ → Text × Option FileInfo → Bool
is_expired calls cutoff (name, none) = false
is_expired calls cutoff (name, some info) = not info.is_dir && ltb_ℤ (age_of calls name info) cutoff

-- The loop of `PurgeRecycle`, with the count so far.
unfoldable pub purge_loop : Os → Calls → ℤ → Text → List (Text × Option FileInfo) → ℕ → Fs → ℕ × Fs
purge_loop os calls cutoff d [] n fs = (n, fs)
purge_loop os calls cutoff d (e ∷ es) n fs =
    let path = join_path d e.0 in
    let skipped = purge_loop os calls cutoff d es n fs in
    let removed = purge_loop os calls cutoff d es (suc n) (write_entry path none fs) in
    if is_expired calls cutoff e && os.remove_ok fs path then removed else skipped

abbrev counted : ℕ × Fs → Outcome EngineError ℕ × Fs
counted (n, fs) = (ok n, fs)

unfoldable pub purge_recycle : Os → Calls → ℤ → Text → Io ℕ
unfolding purge_loop
purge_recycle os calls cutoff d fs = if is_empty d then (ok 0, fs) else elim (calls.read_dir fs d) [
  | err missing ↦ if missing then (ok 0, fs) else (err (os_error d), fs)
  | ok es ↦ counted (purge_loop os calls cutoff d es 0 fs)
]
