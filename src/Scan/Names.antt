-- ===== src/Scan/Names.antt =====
-- internal/scan/sidecar.go, and the labels of internal/scan/scanner.go: which file names are videos,
-- which are subtitles beside a video, and what their tokens say.
use muxprune.Base.{
  ℕ, Bool, true, false, not, ◌&&◌, ◌||◌, Option, none, some, List, [], ◌∷◌, ◌++◌, map, Text, text,
  text_eq, has_prefix, to_lower, is_empty, leb, ◌==◌, if◌then◌else◌, length, keep_if, exists_in,
  find_first, drop, split_on, join, trim_suffix, ext,
}
use muxprune.Probe.{Stream, of_type, video}

-- The name of the file as `MatchSidecar` reads it; the size is 0 there.
pub record Match : Type 0 where
  pub name : Text
  pub lang : Text
  pub hi : Bool
  pub forced : Bool
  pub ext : Text

abbrev pub subtitle_exts : List Text
subtitle_exts =
    text "srt"
    ∷ text "ass"
    ∷ text "ssa"
    ∷ text "sub"
    ∷ text "idx"
    ∷ text "vtt"
    ∷ text "smi"
    ∷ text "sup"
    ∷ []

abbrev pub video_exts : List Text
video_exts =
    text ".mkv"
    ∷ text ".mp4"
    ∷ text ".m4v"
    ∷ text ".avi"
    ∷ text ".mov"
    ∷ text ".webm"
    ∷ text ".ts"
    ∷ text ".m2ts"
    ∷ text ".wmv"
    ∷ text ".flv"
    ∷ []

abbrev pub is_one_of : List Text → Text → Bool
is_one_of ts t = exists_in (text_eq t) ts

unfoldable pub is_subtitle_ext : Text → Bool
unfolding to_lower exists_in text_eq
is_subtitle_ext e = is_one_of subtitle_exts (to_lower e)

unfoldable pub is_video : Text → Bool
unfolding to_lower exists_in text_eq
is_video name = is_one_of video_exts (to_lower (ext name))

-- `flagTokens`
unfoldable pub is_hi_token : Text → Bool
unfolding exists_in text_eq
is_hi_token t = is_one_of (text "hi" ∷ text "sdh" ∷ text "cc" ∷ []) t

unfoldable pub is_forced_token : Text → Bool
unfolding exists_in text_eq
is_forced_token t = is_one_of (text "forced" ∷ text "foreign" ∷ []) t

abbrev pub is_letter : ℕ → Bool
is_letter c = (leb b'a' c && leb c b'z') || (leb b'A' c && leb c b'Z')

abbrev pub are_letters : Text → Bool
are_letters t = not (exists_in (λ c. not (is_letter c)) t)

abbrev pub letters_between : ℕ → ℕ → Text → Bool
letters_between low high t = are_letters t && (leb low (length t) && leb (length t) high)

-- `^[a-zA-Z]{2,3}(-[a-zA-Z]{2,4})?$`
abbrev pub lang_parts : List Text → Bool
lang_parts (a ∷ []) = letters_between 2 3 a
lang_parts (a ∷ b ∷ []) = letters_between 2 3 a && letters_between 2 4 b
lang_parts _ = false

unfoldable pub is_lang_token : Text → Bool
unfolding split_on exists_in
is_lang_token t = lang_parts (split_on b'-' t)

-- One token between the base name and the extension.
unfoldable pub read_token : Text → Match → Match
unfolding is_hi_token is_forced_token is_lang_token to_lower is_empty
read_token tok m =
    let lower = to_lower tok in
    if is_hi_token lower
    then record m { hi = true }
    else if is_forced_token lower
    then record m { forced = true }
    else if is_empty m.lang && is_lang_token tok
    then record m { lang = lower }
    else m

abbrev pub last_of : Text → List Text → Text
last_of d [] = d
last_of d (t ∷ ts) = last_of t ts

abbrev pub but_last : List Text → List Text
but_last [] = []
but_last (t ∷ []) = []
but_last (t ∷ u ∷ ts) = t ∷ but_last (u ∷ ts)

unfoldable pub read_tokens : List Text → Match → Match
unfolding read_token
read_tokens [] m = m
read_tokens (t ∷ ts) m = read_tokens ts (read_token t m)

abbrev pub is_dotted : Text → Bool
is_dotted [] = false
is_dotted (c ∷ s) = c == b'.'

abbrev pub no_flags : Text → Text → Match
no_flags name e = record { name = name; lang = []; hi = false; forced = false; ext = e }

-- `none` where the name is no subtitle of the video.
unfoldable pub match_sidecar : Text → Text → Option Match
unfolding has_prefix split_on to_lower read_tokens exists_in text_eq
match_sidecar name video_base =
    let rest = drop (length video_base) name in
    let parts = split_on b'.' (drop 1 rest) in
    let e = to_lower (last_of [] parts) in
    if not (has_prefix name video_base) || not (is_dotted rest)
    then none
    else if not (is_one_of subtitle_exts e)
    then none
    else some (read_tokens (but_last parts) (no_flags name e))

-- `und` where no language is known.
abbrev pub or_und : Text → Text
or_und [] = text "und"
or_und (c ∷ s) = c ∷ s

abbrev pub when : Bool → Text → Text
when b t = if b then t else []

unfoldable pub sidecar_label : Match → Text
sidecar_label m =
    or_und m.lang
    ++ (when m.hi (text ".hi") ++ (when m.forced (text ".forced") ++ (text "." ++ m.ext)))

-- `summarizeVideo`, `summarizeStreams`
unfoldable pub summarize_video : List Stream → Text
unfolding find_first
summarize_video ss = elim (find_first (of_type video) ss) [ none ↦ [] | some s ↦ s.codec ]

unfoldable pub summarize_streams : Text → List Stream → Text
unfolding join
summarize_streams typ ss = join (text " ") (map (λ s. or_und s.lang) (keep_if (of_type typ) ss))

-- `strings.TrimSuffix(name, filepath.Ext(name))`
abbrev pub stem : Text → Text
stem name = trim_suffix name (ext name)

-- The bases of the videos beside that a subtitle of this base may rather belong to.
unfoldable pub longer_bases : Text → List Text → List Text
unfolding is_video has_prefix trim_suffix
longer_bases base siblings =
    map stem (keep_if (λ name. is_video name && has_prefix (stem name) (base ++ text ".")) siblings)

abbrev pub matches_base : Text → Text → Bool
matches_base name base = elim (match_sidecar name base) [ none ↦ false | some m ↦ true ]

unfoldable pub owned_by_longer : Text → List Text → Text → Bool
unfolding longer_bases match_sidecar
owned_by_longer base siblings name = exists_in (matches_base name) (longer_bases base siblings)

-- The subtitles of the video with this base, among the files beside it.
unfoldable pub own_sidecar : Text → List Text → Text → Option Match
unfolding owned_by_longer match_sidecar
own_sidecar base siblings name =
    if owned_by_longer base siblings name then none else match_sidecar name base
