-- ===== src/Base/Paths.antt =====
-- Go's `path/filepath` on Unix, with the functions on bytes that it needs.
use Prim.Native.Nat.{ℕ, ◌-◌}
use mathlib.Core.Path.{◌≡◌, refl}
use mathlib.Core.Bool.{Bool, true, false, ◌||◌}
use mathlib.Core.List.{List, [], ◌∷◌, ◌++◌, reverse}
use muxprune.Base.Tests.{◌==◌, if◌then◌else◌}
use muxprune.Base.Lists.{length, take, drop}
use muxprune.Base.Bytes.{Text, text, text_eq, has_prefix, is_empty}

abbrev pub slash : ℕ
slash = b'/'

-- `strings.Split(s, sep)` for a separator of one byte: never the empty list.
abbrev pub grow : ℕ → List Text → List Text
grow c [] = (c ∷ []) ∷ []
grow c (p ∷ ps) = (c ∷ p) ∷ ps

unfoldable pub split_on : ℕ → Text → List Text
split_on sep [] = [] ∷ []
split_on sep (c ∷ s) = let rest = split_on sep s in if c == sep then [] ∷ rest else grow c rest

-- `strings.Join(parts, sep)`
unfoldable pub join : Text → List Text → Text
join sep [] = []
join sep (p ∷ []) = p
join sep (p ∷ q ∷ ps) = p ++ (sep ++ join sep (q ∷ ps))

-- `strings.TrimPrefix`, `strings.TrimSuffix`
unfoldable pub trim_prefix : Text → Text → Text
trim_prefix s p = if has_prefix s p then drop (length p) s else s

unfoldable pub has_suffix : Text → Text → Bool
has_suffix s p = has_prefix (reverse s) (reverse p)

unfoldable pub trim_suffix : Text → Text → Text
trim_suffix s p = if has_suffix s p then take (length s - length p) s else s

-- `filepath.Ext`: from the last dot of the last element.
abbrev pub ext_step : Text → ℕ → Text → Text
ext_step cur c s = if c == slash then [] else if c == b'.' then c ∷ s else cur

unfoldable pub ext_from : Text → Text → Text
ext_from cur [] = cur
ext_from cur (c ∷ s) = ext_from (ext_step cur c s) s

abbrev pub ext : Text → Text
ext path = ext_from [] path

-- `filepath.Base`: the last element, once trailing slashes are gone.
unfoldable pub drop_slashes : Text → Text
drop_slashes [] = []
drop_slashes (c ∷ s) = if c == slash then drop_slashes s else c ∷ s

unfoldable pub until_slash : Text → Text
until_slash [] = []
until_slash (c ∷ s) = let rest = until_slash s in if c == slash then [] else c ∷ rest

unfoldable pub after_slash : Text → Text
after_slash [] = []
after_slash (c ∷ s) = if c == slash then c ∷ s else after_slash s

unfoldable pub base : Text → Text
unfolding drop_slashes until_slash is_empty
base [] = text "."
base (c ∷ s) =
    let last = reverse (until_slash (drop_slashes (reverse (c ∷ s)))) in
    if is_empty last then text "/" else last

-- `filepath.Clean`: the elements left once `.`, empty ones and `x/..` are gone. `kept` is reversed.
abbrev pub dot : Text
dot = text "."

abbrev pub dot_dot : Text
dot_dot = text ".."

abbrev pub clean_dots : Bool → List Text → List Text
clean_dots true [] = []
clean_dots false [] = dot_dot ∷ []
clean_dots rooted (k ∷ ks) = if text_eq k dot_dot then dot_dot ∷ k ∷ ks else ks

abbrev pub clean_step : Bool → List Text → Text → List Text
clean_step rooted kept p =
    if is_empty p || text_eq p dot
    then kept
    else if text_eq p dot_dot
    then clean_dots rooted kept
    else p ∷ kept

unfoldable pub clean_parts : Bool → List Text → List Text → List Text
clean_parts rooted kept [] = reverse kept
clean_parts rooted kept (p ∷ ps) = clean_parts rooted (clean_step rooted kept p) ps

unfoldable pub clean : Text → Text
unfolding split_on join clean_parts has_prefix is_empty text_eq
clean path =
    let rooted = has_prefix path (text "/") in
    let body = join (text "/") (clean_parts rooted [] (split_on slash path)) in
    if rooted then text "/" ++ body else if is_empty body then dot else body

-- `filepath.Dir`
unfoldable pub dir : Text → Text
unfolding clean after_slash
dir path = clean (reverse (after_slash (reverse path)))

-- `filepath.Join(d, name)` of two elements; empty ones are left out.
unfoldable pub join_path : Text → Text → Text
unfolding clean
join_path d name =
    if is_empty d
    then (if is_empty name then [] else clean name)
    else if is_empty name
    then clean d
    else clean (d ++ (text "/" ++ name))

ext_runs : ext (text "/m/a.b/c.srt") ≡ text ".srt"
unfolding ext_from
ext_runs = refl

no_ext : ext (text "/m/a.b/c") ≡ []
unfolding ext_from
no_ext = refl

base_runs : base (text "/m/a.b/c.srt/") ≡ text "c.srt"
unfolding base
base_runs = refl

dir_runs : dir (text "/m/../a//b/c.srt") ≡ text "/a/b"
unfolding dir
dir_runs = refl

clean_up : clean (text "a/../../b/.") ≡ text "../b"
unfolding clean
clean_up = refl
