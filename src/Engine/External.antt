-- ===== src/Engine/External.antt =====
-- `ValidateExternalFiles`: which files may be merged into a video.
pub mod Mergeable
use muxprune.Base.{
  ◌≡◌, Bool, true, false, not, ◌||◌, Option, none, some, List, [], ◌∷◌, ◌++◌, Text, text, text_eq,
  has_prefix, is_empty, Outcome, ok, err, fail_if, ◌>>=◌, ◌>>◌, if◌then◌else◌, exists_in, clean,
  base, trim_suffix,
}
use muxprune.Engine.{
  EngineError, os_error, merge_into_itself, duplicate_external, outside_roots, not_accessible,
  is_directory, bad_external_name,
}
use muxprune.Engine.Io.{FileInfo, Fs, Os}
use muxprune.Engine.Replace.{trim_space}

-- `realPath`: links are resolved, and a path that cannot be is cleaned.
unfoldable pub real_path : Os → Fs → Text → Text
real_path os fs path = elim (os.eval_symlinks fs path) [ some r ↦ r | none ↦ clean path ]

unfoldable pub resolve_roots : Os → Fs → List Text → List Text
resolve_roots os fs [] = []
resolve_roots os fs (r ∷ rs) =
    let rest = resolve_roots os fs rs in
    if is_empty (trim_space r) then rest else real_path os fs (trim_space r) ∷ rest

-- `pathWithin`: the root itself, or below it by whole elements.
abbrev pub below_root : Text → Text → Bool
below_root path root =
    text_eq path root || has_prefix (path ++ text "/") (trim_suffix root (text "/") ++ text "/")

unfoldable pub path_within : Text → List Text → Bool
path_within path roots = exists_in (below_root path) roots

-- `none` where the provider of roots is nil: there is no restriction.
abbrev pub Roots : Type 0
Roots = Option (List Text)

abbrev pub allowed : Roots → Text → Bool
allowed none real = true
allowed (some roots) real = path_within real roots

abbrev pub accessible : Text → Option FileInfo → Outcome EngineError (Unit {0})
accessible x none = err (not_accessible x)
accessible x (some fi) = fail_if fi.is_dir (is_directory x)

abbrev pub bad_name : Text → Bool
bad_name b = has_prefix b (text "-") || has_prefix b (text "@")

abbrev pub check_one :
    Os → Fs → Text → Roots → List Text → Text → Text → Outcome EngineError (Unit {0})
check_one os fs abs_path roots seen x abs_x = do
  fail_if (text_eq abs_x abs_path) (merge_into_itself x)
  fail_if (exists_in (λ y. text_eq y abs_x) seen) (duplicate_external x)
  fail_if (not (allowed roots (real_path os fs abs_x))) (outside_roots x)
  accessible x (os.stat fs x)
  fail_if (bad_name (base x)) (bad_external_name x)

abbrev pub abs_of : Os → Text → Outcome EngineError Text
abs_of os x = elim (os.abs x) [ ok a ↦ ok a | err e ↦ err (os_error e) ]

unfoldable pub check_files :
    Os → Fs → Text → Roots → List Text → List Text → Outcome EngineError (Unit {0})
check_files os fs abs_path roots seen [] = ok tt
check_files os fs abs_path roots seen (x ∷ xs) = elim (abs_of os x) [
  | err e ↦ err e
  | ok a ↦
      (let rest = check_files os fs abs_path roots (a ∷ seen) xs in
        check_one os fs abs_path roots seen x a >> rest)
]

abbrev pub resolved : Os → Fs → Roots → Roots
resolved os fs none = none
resolved os fs (some rs) = some (resolve_roots os fs rs)

unfoldable pub validate_external_files :
    Os → Fs → Roots → Text → List Text → Outcome EngineError (Unit {0})
unfolding check_files
validate_external_files os fs roots path files = do
  abs_path ← abs_of os path
  check_files os fs abs_path (resolved os fs roots) [] files
