-- ===== src/Scan/Matched.antt =====
-- How a subtitle named after the convention `<video>.<lang>[.hi][.forced].<ext>` is read.
use muxprune.Base.{
  ℕ, ◌≡◌, refl, sym, ap, ◌∙◌, Bool, true, false, ◌||◌, some, List, [], ◌∷◌, ◌++◌, arith, Text, text,
  text_eq, text_eq→eq, has_prefix-append, to_lower, is_empty, ◌==◌, length, exists_in, drop,
  split_on, grow, All, Bool-cases, inl, inr,
}
use muxprune.Scan.Names.{
  Match, is_one_of, subtitle_exts, is_subtitle_ext, is_hi_token, is_forced_token, is_lang_token,
  are_letters, lang_parts, read_token, read_tokens, last_of, but_last, no_flags, match_sidecar,
  when,
}

abbrev is_dot : ℕ → Bool
is_dot c = c == b'.'

abbrev has_dot : Text → Bool
has_dot t = exists_in is_dot t

split_on_undotted :
    (a s : Text) → has_dot a ≡ false → split_on b'.' (a ++ b'.' ∷ s) ≡ a ∷ split_on b'.' s
unfolding split_on exists_in
split_on_undotted [] s n = refl
split_on_undotted (c ∷ a) s n = rw (split_on_undotted a s (ground arith)) (ground arith)

split_on_last : (a : Text) → has_dot a ≡ false → split_on b'.' a ≡ a ∷ []
unfolding split_on exists_in
split_on_last [] n = refl
split_on_last (c ∷ a) n = rw (split_on_last a (ground arith)) (ground arith)

-- A dot stays where it is when a text is split elsewhere.
has_dot-grow :
    (c : ℕ) (ps : List Text) → exists_in has_dot (grow c ps) ≡ (is_dot c || exists_in has_dot ps)
unfolding exists_in
has_dot-grow c [] = ground arith
has_dot-grow c (p ∷ ps) = ground arith

has_dot-split_on : (t : Text) → has_dot t ≡ exists_in has_dot (split_on b'-' t)
unfolding exists_in split_on
has_dot-split_on [] = refl
has_dot-split_on (c ∷ t) = ground (arith, has_dot-split_on t, has_dot-grow c (split_on b'-' t))

are_letters-has_dot : (t : Text) → are_letters t ≡ true → has_dot t ≡ false
unfolding exists_in
are_letters-has_dot [] h = refl
are_letters-has_dot (c ∷ t) h = ground (arith, are_letters-has_dot t)

lang_parts-has_dot : (ps : List Text) → lang_parts ps ≡ true → exists_in has_dot ps ≡ false
unfolding exists_in
lang_parts-has_dot [] h = cc
lang_parts-has_dot (a ∷ []) h = ground (arith, are_letters-has_dot a)
lang_parts-has_dot (a ∷ b ∷ []) h = ground (arith, are_letters-has_dot a, are_letters-has_dot b)
lang_parts-has_dot (a ∷ b ∷ c ∷ ps) h = cc

is_lang_token-has_dot : (t : Text) → is_lang_token t ≡ true → has_dot t ≡ false
unfolding is_lang_token
is_lang_token-has_dot t h = has_dot-split_on t ∙ lang_parts-has_dot (split_on b'-' t) h

has_dot-to_lower : (t : Text) → has_dot (to_lower t) ≡ has_dot t
unfolding exists_in to_lower
has_dot-to_lower [] = refl
has_dot-to_lower (c ∷ t) = ground (arith, has_dot-to_lower t)

-- What is one of some texts has what all of them have.
of_each : (P : Text → Type 0) (t : Text) (us : List Text) → is_one_of us t ≡ true → All P us → P t
unfolding exists_in
of_each P t [] h a = cc
of_each P t (u ∷ us) h a = elim (Bool-cases (text_eq t u)) [
  | inl e ↦ rw (text_eq→eq t u e) a.0
  | inr e ↦ of_each P t us (rw e at h) a.1
]

is_subtitle_ext-has_dot : (e : Text) → is_subtitle_ext e ≡ true → has_dot e ≡ false
unfolding is_subtitle_ext exists_in
is_subtitle_ext-has_dot e h =
    sym (has_dot-to_lower e)
    ∙ of_each (λ t. has_dot t ≡ false) (to_lower e) subtitle_exts h
        (refl, (refl, (refl, (refl, (refl, (refl, (refl, (refl, tt))))))))

-- `<video>.<lang>[.hi][.forced].<ext>`
unfoldable pub sidecar_name : Text → Text → Bool → Bool → Text → Text
sidecar_name base lang hi forced e =
    base
    ++ (b'.' ∷ (lang ++ (b'.' ∷ (when hi (text "hi.") ++ (when forced (text "forced.") ++ e)))))

name_parts : Text → Bool → Bool → Text → List Text
name_parts lang true true e = lang ∷ text "hi" ∷ text "forced" ∷ e ∷ []
name_parts lang true false e = lang ∷ text "hi" ∷ e ∷ []
name_parts lang false true e = lang ∷ text "forced" ∷ e ∷ []
name_parts lang false false e = lang ∷ e ∷ []

split_on-name :
    (lang e : Text) (hi forced : Bool)
    → has_dot lang ≡ false
    → has_dot e ≡ false
    → split_on b'.' (lang ++ (b'.' ∷ (when hi (text "hi.") ++ (when forced (text "forced.") ++ e))))
      ≡ name_parts lang hi forced e
unfolding split_on name_parts
split_on-name lang e true true l n =
    rw (split_on_undotted lang (text "hi." ++ (text "forced." ++ e)) l)
      (rw (split_on_last e n) refl)
split_on-name lang e true false l n =
    rw (split_on_undotted lang (text "hi." ++ e) l) (rw (split_on_last e n) refl)
split_on-name lang e false true l n =
    rw (split_on_undotted lang (text "forced." ++ e) l) (rw (split_on_last e n) refl)
split_on-name lang e false false l n = rw (split_on_undotted lang e l) (rw (split_on_last e n) refl)

drop_head : (a s : Text) → drop (length a) (a ++ s) ≡ s
drop_head [] s = refl
drop_head (c ∷ a) s = drop_head a s

abbrev pub as_named : Text → Text → Bool → Bool → Text → Match
as_named base lang hi forced e = record {
  name = sidecar_name base lang hi forced e;
  lang = to_lower lang;
  hi = hi;
  forced = forced;
  ext = to_lower e;
}

read_token-lang :
    (lang : Text) (m : Match)
    → is_lang_token lang ≡ true
    → is_hi_token (to_lower lang) ≡ false
    → is_forced_token (to_lower lang) ≡ false
    → is_empty m.lang ≡ true
    → read_token lang m ≡ record m { lang = to_lower lang }
unfolding read_token
read_token-lang lang m l h f e = rw (h, f, e, l) refl

read_tokens-name :
    (name lang e x : Text) (hi forced : Bool)
    → is_lang_token lang ≡ true
    → is_hi_token (to_lower lang) ≡ false
    → is_forced_token (to_lower lang) ≡ false
    → read_tokens (but_last (name_parts lang hi forced x)) (no_flags name e)
      ≡ record { name = name; lang = to_lower lang; hi = hi; forced = forced; ext = e }
unfolding read_tokens name_parts is_empty read_token is_hi_token is_forced_token to_lower exists_in
    text_eq
read_tokens-name name lang e x true true l h f =
    ap (λ m. read_tokens (text "hi" ∷ text "forced" ∷ []) m)
      (read_token-lang lang (no_flags name e) l h f refl)
read_tokens-name name lang e x true false l h f =
    ap (λ m. read_tokens (text "hi" ∷ []) m) (read_token-lang lang (no_flags name e) l h f refl)
read_tokens-name name lang e x false true l h f =
    ap (λ m. read_tokens (text "forced" ∷ []) m) (read_token-lang lang (no_flags name e) l h f refl)
read_tokens-name name lang e x false false l h f = read_token-lang lang (no_flags name e) l h f refl

last_of-name : (lang e : Text) (hi forced : Bool) → last_of [] (name_parts lang hi forced e) ≡ e
unfolding name_parts
last_of-name lang e true true = refl
last_of-name lang e true false = refl
last_of-name lang e false true = refl
last_of-name lang e false false = refl

-- A file named `<video>.<lang>[.hi][.forced].<ext>`, with a language token that is no flag and the
-- extension of a subtitle, is matched to the video, and its language, flags and extension are read
-- back, in lower case.
pub match_sidecar-sidecar_name :
    (base lang e : Text) (hi forced : Bool)
    → is_lang_token lang ≡ true
    → is_hi_token (to_lower lang) ≡ false
    → is_forced_token (to_lower lang) ≡ false
    → is_subtitle_ext e ≡ true
    → match_sidecar (sidecar_name base lang hi forced e) base
      ≡ some (as_named base lang hi forced e)
unfolding match_sidecar sidecar_name is_subtitle_ext
match_sidecar-sidecar_name base lang e hi forced l h f s =
    let rest = lang ++ (b'.' ∷ (when hi (text "hi.") ++ (when forced (text "forced.") ++ e))) in
    let parts =
      split_on-name lang e hi forced (is_lang_token-has_dot lang l) (is_subtitle_ext-has_dot e s) in
    rw (has_prefix-append base (b'.' ∷ rest), drop_head base (b'.' ∷ rest))
      (rw parts (
        rw (last_of-name lang e hi forced) (
          rw s (
            ap some
              (read_tokens-name (base ++ (b'.' ∷ rest)) lang (to_lower e) e hi forced l h f)))))
