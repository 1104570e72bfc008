-- ===== src/Store/Browse/Like.antt =====
-- `escapeLike` of internal/store/store.go, and the patterns of `LIKE ... ESCAPE '\'` that it feeds.
use muxprune.Base.{
  ℕ, Bool, false, ◌&&◌, ◌||◌, Option, none, some, List, [], ◌∷◌, Text, lower_byte, ◌==◌,
  if◌then◌else◌, is_empty,
}

abbrev pub backslash : ℕ
backslash = 92

abbrev pub percent : ℕ
percent = b'%'

abbrev pub underscore : ℕ
underscore = b'_'

abbrev pub is_special : ℕ → Bool
is_special c = c == backslash || (c == percent || c == underscore)

-- `strings.NewReplacer`, of one-byte needles.
unfoldable pub escape_like : Text → Text
escape_like [] = []
escape_like (c ∷ s) =
    let rest = escape_like s in if is_special c then backslash ∷ c ∷ rest else c ∷ rest

-- A pattern of `LIKE`, read. `one` stands for one character, of ASCII text one byte.
pub data Mark : Type 0 where
  exactly : ℕ → Mark
  one : Mark
  any : Mark

abbrev pub mark_of : ℕ → Mark
mark_of c = if c == percent then any else if c == underscore then one else exactly c

abbrev pub and_mark : Mark → Option (List Mark) → Option (List Mark)
and_mark m none = none
and_mark m (some ms) = some (m ∷ ms)

-- `none` where the escape character ends the pattern.
unfoldable pub read_pattern : Text → Option (List Mark)
read_pattern [] = some []
read_pattern (c ∷ []) = if c == backslash then none else some (mark_of c ∷ [])
read_pattern (c ∷ d ∷ s) =
    let escaped = and_mark (exactly d) (read_pattern s) in
    let plain = and_mark (mark_of c) (read_pattern (d ∷ s)) in
    if c == backslash then escaped else plain

-- A test holds of some suffix.
unfoldable pub some_suffix : (Text → Bool) → Text → Bool
some_suffix p [] = p []
some_suffix p (c ∷ s) = p (c ∷ s) || some_suffix p s

unfoldable pub matches : List Mark → Text → Bool
unfolding is_empty some_suffix
matches [] s = is_empty s
matches (exactly c ∷ ms) [] = false
matches (exactly c ∷ ms) (d ∷ s) = lower_byte c == lower_byte d && matches ms s
matches (one ∷ ms) [] = false
matches (one ∷ ms) (d ∷ s) = matches ms s
matches (any ∷ ms) s = some_suffix (matches ms) s

-- `s LIKE pattern ESCAPE '\'`
unfoldable pub matches_like : Text → Text → Bool
unfolding read_pattern matches
matches_like pattern s = elim (read_pattern pattern) [ none ↦ false | some ms ↦ matches ms s ]
