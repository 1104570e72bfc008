-- ===== src/Engine/Edit.antt =====
-- `EditMetadata`: header edits in place by mkvpropedit.
pub mod Checked
use muxprune.Base.{
  ℕ, ◌+◌, ◌≡◌, refl, Bool, true, false, not, ◌&&◌, ◌||◌, Option, none, some, List, [], ◌∷◌, ◌++◌,
  Text, text, text_eq, is_empty, ℤ, pos, ◌+ℤ◌, ltb_ℤ, leb, ltb, ◌==◌, Outcome, ok, err, Float,
  if◌then◌else◌, length, keep_if, exists_in, itoa, join, split_on,
}
use muxprune.Probe.{Stream, Result, is_matroska, safe_path_arg}
use muxprune.Engine.{
  EngineError, EngineResult, Tools, tool_missing, no_edits, not_matroska, stream_not_found,
  stream_without_id, bad_language, tool_failed, by_idx,
}
use muxprune.Engine.Io.{Fs, Os, Io, Ran, pure, throw_if, lift, ◌>>=◌, ◌>>◌}
use muxprune.Engine.Replace.{stat_replaceable, wrap_nice, exec, warnings_only, succeeded, tail_of}
use muxprune.Engine.Remux.{probe_at, is_failure, command_line}
use muxprune.Store.Payload.{MetadataEdit}

abbrev pub is_letter : ℕ → Bool
is_letter c = (leb b'a' c && leb c b'z') || (leb b'A' c && leb c b'Z')

abbrev pub is_alphanumeric : ℕ → Bool
is_alphanumeric c = is_letter c || (leb b'0' c && leb c b'9')

abbrev pub all_bytes : (ℕ → Bool) → Text → Bool
all_bytes p s = not (exists_in (λ c. not (p c)) s)

abbrev pub is_subtag : Text → Bool
is_subtag s = not (is_empty s) && all_bytes is_alphanumeric s

abbrev first_subtag : List Text → Text
first_subtag [] = []
first_subtag (s ∷ ss) = s

-- `validLanguageTag`, bytewise: a byte of a character that is not ASCII is neither a letter nor a
-- digit, nor is the character.
unfoldable pub valid_language_tag : Text → Bool
valid_language_tag s =
    let subtags = split_on b'-' s in
    not (exists_in (λ t. not (is_subtag t)) subtags) && all_bytes is_letter (first_subtag subtags)

-- `stripControl`, bytewise: on valid UTF-8 the control characters that it drops are ASCII.
unfoldable pub strip_control : Text → Text
strip_control s = keep_if (λ c. not (ltb c 32 || c == 127)) s

abbrev pub bool_flag : Bool → Text
bool_flag true = text "1"
bool_flag false = text "0"

abbrev pub language_acts : Stream → Text → Outcome EngineError (List Text)
language_acts st lang =
    if is_empty lang
    then ok []
    else if not (valid_language_tag lang)
    then err (bad_language lang)
    else if text_eq lang st.lang
    then ok []
    else ok (text "--set" ∷ (text "language=" ++ lang) ∷ [])

abbrev pub title_acts : Option Text → List Text
title_acts none = []
title_acts (some t) =
    if is_empty (strip_control t)
    then text "--delete" ∷ text "name" ∷ []
    else text "--set" ∷ (text "name=" ++ strip_control t) ∷ []

abbrev pub flag_acts : Text → Option Bool → List Text
flag_acts name none = []
flag_acts name (some v) = text "--set" ∷ (name ++ bool_flag v) ∷ []

abbrev pub acts_of : MetadataEdit → List Text → List Text
acts_of e lang =
    lang
    ++ (title_acts e.title
        ++ (flag_acts (text "flag-default=") e.default ++ flag_acts (text "flag-forced=") e.forced))

abbrev pub track_args : Stream → List Text → List Text
track_args st [] = []
track_args st (a ∷ acts) = text "--edit" ∷ (text "track:" ++ itoa (st.mkv_id +ℤ pos 1)) ∷ a ∷ acts

-- What the loop over the edits appends for one of them.
unfoldable pub edit_args : List Stream → MetadataEdit → Outcome EngineError (List Text)
edit_args ss e = elim (by_idx ss e.track_index) [
  | none ↦ err (stream_not_found e.track_index)
  | some st ↦
      if ltb_ℤ st.mkv_id (pos 0)
      then err (stream_without_id e.track_index)
      else elim (language_acts st e.language) [
        | err x ↦ err x
        | ok lang ↦ ok (track_args st (acts_of e lang))
      ]
]

abbrev append_rest : List Text → Outcome EngineError (List Text) → Outcome EngineError (List Text)
append_rest args (ok rest) = ok (args ++ rest)
append_rest args (err x) = err x

unfoldable pub all_edit_args : List Stream → List MetadataEdit → Outcome EngineError (List Text)
all_edit_args ss [] = ok []
all_edit_args ss (e ∷ es) =
    let rest = all_edit_args ss es in
    elim (edit_args ss e) [ err x ↦ err x | ok args ↦ append_rest args rest ]

abbrev pub edited : Text → EngineResult
edited command = record {
  tool = text "mkvpropedit";
  command = command;
  bytes_saved = pos 0;
  dry_run = false;
}

-- The run of mkvpropedit, whose context is never cancelled, if there is anything to change.
unfoldable pub run_edit : Os → Text → List Text → List Text → Io EngineResult
run_edit os tool path_arg [] = pure (edited (text "no changes"))
run_edit os tool path_arg (a ∷ args) = do
  r ← exec os (wrap_nice os tool (path_arg ++ a ∷ args))
  throw_if (is_failure true (record r { cancelled = false }))
      (tool_failed (text "mkvpropedit") (tail_of r.stderr 1000))
  pure (edited (command_line tool (path_arg ++ a ∷ args)))

unfoldable pub edit_metadata :
    {D : Type 0} → Float D → Os → Tools → Text → List MetadataEdit → Bool → Io EngineResult
unfolding all_edit_args run_edit
edit_metadata {D} f os tools path edits allow_hardlink = do
  throw_if (is_empty tools.mkvpropedit) (tool_missing (text "mkvpropedit"))
  throw_if (length edits == 0) no_edits
  res ← probe_at {D = D} ⦃f = f⦄ os path
  throw_if (not (is_matroska res)) not_matroska
  info ← stat_replaceable path allow_hardlink
  args ← lift (all_edit_args res.streams edits)
  run_edit os tools.mkvpropedit (safe_path_arg path ∷ []) args
