-- ===== src/Store/Browse/Search.antt =====
-- What a search of internal/store/store.go selects.
use muxprune.Base.{
  ℕ, ◌≡◌, refl, ap, Bool, true, false, ◌&&◌, some, List, [], ◌∷◌, ◌++◌, map, arith, Text, text,
  lower_byte, ◌==◌, Bool-cases, inl, inr,
}
use muxprune.Store.Browse.Like.{
  backslash, percent, is_special, escape_like, Mark, exactly, any, mark_of, and_mark, read_pattern,
  some_suffix, matches, matches_like,
}
use muxprune.Store.Browse.{like_pattern}

read_pattern_plain :
    (c : ℕ) (s : Text)
    → (c == backslash) ≡ false
    → read_pattern (c ∷ s) ≡ and_mark (mark_of c) (read_pattern s)
unfolding read_pattern
read_pattern_plain c [] n = ground arith
read_pattern_plain c (d ∷ s) n = rw n refl

read_pattern-escape_like_append :
    (s t : Text) (ms : List Mark)
    → read_pattern t ≡ some ms
    → read_pattern (escape_like s ++ t) ≡ some (map exactly s ++ ms)
unfolding escape_like read_pattern
read_pattern-escape_like_append [] t ms h = h
read_pattern-escape_like_append (c ∷ s) t ms h = elim (Bool-cases (is_special c)) [
  | inl e ↦ rw e (rw (read_pattern-escape_like_append s t ms h, read_pattern) refl)
  | inr e ↦ rw e (
      rw (read_pattern_plain c (escape_like s ++ t) (ground arith))
        (rw (read_pattern-escape_like_append s t ms h) (ground arith)))
]

-- The pattern of a search reads as what was typed, character by character, between two wild cards:
-- no character of the query is a wild card, and no escape is left open.
pub read_pattern-like_pattern :
    (query : Text)
    → read_pattern (like_pattern query) ≡ some (any ∷ (map exactly query ++ any ∷ []))
unfolding read_pattern
read_pattern-like_pattern query =
    rw (read_pattern_plain percent (escape_like query ++ text "%") refl)
      (rw (read_pattern-escape_like_append query (text "%") (any ∷ []) refl) refl)

-- The same characters at the head of the text, but for the case of ASCII letters.
unfoldable pub starts_like : Text → Text → Bool
starts_like [] s = true
starts_like (c ∷ q) [] = false
starts_like (c ∷ q) (d ∷ s) = lower_byte c == lower_byte d && starts_like q s

any_matches : (s : Text) → some_suffix (matches []) s ≡ true
unfolding some_suffix matches
any_matches [] = refl
any_matches (c ∷ s) = any_matches s

matches-exactly : (q s : Text) → matches (map exactly q ++ any ∷ []) s ≡ starts_like q s
unfolding matches starts_like
matches-exactly [] s = any_matches s
matches-exactly (c ∷ q) [] = refl
matches-exactly (c ∷ q) (d ∷ s) = ap (λ b. lower_byte c == lower_byte d && b) (matches-exactly q s)

some_suffix-eq :
    (p q : Text → Bool) → ((s : Text) → p s ≡ q s) → (s : Text) → some_suffix p s ≡ some_suffix q s
unfolding some_suffix
some_suffix-eq p q h [] = h []
some_suffix-eq p q h (c ∷ s) = rw (h (c ∷ s)) (rw (some_suffix-eq p q h s) refl)

-- A search selects exactly the texts that hold the query somewhere, letters of either case alike:
-- `%`, `_` and the backslash in the query stand for themselves.
pub matches_like-like_pattern :
    (query s : Text) → matches_like (like_pattern query) s ≡ some_suffix (starts_like query) s
unfolding matches_like matches
matches_like-like_pattern query s =
    rw (read_pattern-like_pattern query, matches_like)
      (some_suffix-eq _ _ (matches-exactly query) s)
