-- ===== src/Engine/External/Mergeable.antt =====
-- `ValidateExternalFiles`: what the files are that it lets through.
use muxprune.Base.{
  ◌≡◌, refl, true, false, Option, none, some, List, [], ◌∷◌, arith, Text, text_eq, ok,
  Outcome-cases, inl, inr, exists_in, base,
}
use muxprune.Engine.Io.{FileInfo, Fs, Os}
use muxprune.Engine.External.{
  Roots, real_path, allowed, accessible, bad_name, check_one, abs_of, check_files, resolved,
  validate_external_files,
}

-- What each file that passes is: not the video, within the roots by its real path, a file that is
-- there and no directory, and with a name that no tool reads as an option.
pub record IsMergeable (os : Os) (fs : Fs) (abs_path : Text) (roots : Roots) (x a : Text)
    : Type 0 where
  pub resolves : os.abs x ≡ ok a
  pub not_itself : text_eq a abs_path ≡ false
  pub inside : allowed roots (real_path os fs a) ≡ true
  pub file : (fi : FileInfo) × (os.stat fs x ≡ some fi) × (fi.is_dir ≡ false)
  pub plain_name : bad_name (base x) ≡ false

-- Each file is mergeable, and none has the absolute path of an earlier one.
abbrev pub AllMergeable : Os → Fs → Text → Roots → List Text → List Text → Type 0
AllMergeable os fs abs_path roots seen [] = Unit
AllMergeable os fs abs_path roots seen (x ∷ xs) =
    (a : Text) × IsMergeable os fs abs_path roots x a
    × (exists_in (λ y. text_eq y a) seen ≡ false)
    × AllMergeable os fs abs_path roots (a ∷ seen) xs

abs_of-ok : (os : Os) (x : Text) {a : Text} → abs_of os x ≡ ok a → os.abs x ≡ ok a
abs_of-ok os x h = elim (Outcome-cases (os.abs x)) [
  | inl (b, e) ↦ ground arith
  | inr (y, e) ↦ absurd (ground arith)
]

accessible-file :
    (x : Text) (o : Option FileInfo)
    → accessible x o ≡ ok tt
    → (fi : FileInfo) × (o ≡ some fi) × (fi.is_dir ≡ false)
accessible-file x none h = absurd (ground arith)
accessible-file x (some fi) h = (fi, refl, ground arith)

check_one-ok :
    (os : Os) (fs : Fs) (abs_path : Text) (roots : Roots) (seen : List Text) (x a : Text)
    → os.abs x ≡ ok a
    → check_one os fs abs_path roots seen x a ≡ ok tt
    → IsMergeable os fs abs_path roots x a × (exists_in (λ y. text_eq y a) seen ≡ false)
check_one-ok os fs abs_path roots seen x a e h =
    let inside : accessible x (os.stat fs x) ≡ ok tt = ground arith in
    (
      record {
        resolves = e;
        not_itself = ground arith;
        inside = ground arith;
        file = accessible-file x (os.stat fs x) inside;
        plain_name = ground arith;
      },
      ground arith,
    )

check_files-AllMergeable :
    (os : Os) (fs : Fs) (abs_path : Text) (roots : Roots) (seen files : List Text)
    → check_files os fs abs_path roots seen files ≡ ok tt
    → AllMergeable os fs abs_path roots seen files
unfolding check_files
check_files-AllMergeable os fs abs_path roots seen [] h = tt
check_files-AllMergeable os fs abs_path roots seen (x ∷ xs) h = elim (Outcome-cases (abs_of os x)) [
  | inr (e, r) ↦ absurd (ground arith)
  | inl (a, r) ↦ elim (Outcome-cases (check_one os fs abs_path roots seen x a)) [
    | inr (e, q) ↦ absurd (ground arith)
    | inl (_, q) ↦
        (let (m, new) = check_one-ok os fs abs_path roots seen x a (abs_of-ok os x r) q in
          (a, m, new, check_files-AllMergeable os fs abs_path roots (a ∷ seen) xs (ground arith)))
  ]
]

-- Files that are let through for a merge into the video at `path` are, each of them, not the video
-- itself, no repetition of an earlier one, within the allowed roots by the path that links lead to,
-- there and no directory, and of a name that starts with neither a hyphen nor an at sign.
pub validate_external_files-AllMergeable :
    (os : Os) (fs : Fs) (roots : Roots) (path : Text) (files : List Text)
    → validate_external_files os fs roots path files ≡ ok tt
    → (abs_path : Text) × (os.abs path ≡ ok abs_path)
      × AllMergeable os fs abs_path (resolved os fs roots) [] files
unfolding validate_external_files
validate_external_files-AllMergeable os fs roots path files h =
    elim (Outcome-cases (abs_of os path)) [
      | inr (e, r) ↦ absurd (ground arith)
      | inl (a, r) ↦ (
        a,
        abs_of-ok os path r,
        check_files-AllMergeable os fs a (resolved os fs roots) [] files (ground arith),
      )
    ]
