-- ===== src/Probe/Parse.antt =====
-- `ParseFFprobe`: ffprobe's JSON document as streams.
use muxprune.Base.{
  ℕ, ◌+◌, ◌-◌, ◌*◌, ◌^◌, Bool, true, false, not, ◌&&◌, Option, none, some, List, [], ◌∷◌, map, Text,
  text, is_empty, ℤ, pos, negsuc, sub_ℕ, minus_one, eq_ℤ, leb, ◌==◌, Outcome, ok, err, Float,
  if◌then◌else◌, length,
}
use muxprune.Probe.{Stream, Result, lookup_text}

-- `strconv.ParseUint` at base 10 and 64 bits: it stops at the first byte that is no digit, or that
-- passes the range.
pub data Digits : Type 0 where
  number : ℕ → Digits
  out_of_range bad_syntax : Digits

abbrev pub is_digit : ℕ → Bool
is_digit c = leb b'0' c && leb c b'9'

unfoldable pub read_digits : ℕ → Text → Digits
read_digits n [] = number n
read_digits n (c ∷ s) =
    let n' = n * 10 + (c - 48) in
    let rest = read_digits n' s in
    if not (is_digit c) then bad_syntax else if leb (2 ^ 64) n' then out_of_range else rest

abbrev pub unsigned : Text → Digits
unsigned [] = bad_syntax
unsigned (c ∷ s) = read_digits 0 (c ∷ s)

abbrev pub max_int64 : ℕ
max_int64 = 2 ^ 63 - 1

-- The value that `strconv.ParseInt(s, 10, 64)` returns, and whether it returns no error.
abbrev pub signed : Bool → Digits → ℤ × Bool
signed neg bad_syntax = (pos 0, false)
signed neg out_of_range = (if neg then negsuc max_int64 else pos max_int64, false)
signed false (number n) = if leb n max_int64 then (pos n, true) else (pos max_int64, false)
signed true (number n) =
    if leb n (max_int64 + 1) then (sub_ℕ 0 n, true) else (negsuc max_int64, false)

unfoldable pub parse_int : Text → ℤ × Bool
unfolding read_digits
parse_int [] = (pos 0, false)
parse_int (c ∷ s) =
    if c == b'-'
    then signed true (unsigned s)
    else if c == b'+'
    then signed false (unsigned s)
    else signed false (unsigned (c ∷ s))

pub record RawStream : Type 0 where
  pub index : ℤ
  pub codec_type : Text
  pub codec_name : Text
  pub channels : ℤ
  pub channel_layout : Text
  pub bit_rate : Text
  pub default : ℤ
  pub forced : ℤ
  pub attached_pic : ℤ
  pub tags : List (Text × Text)

pub record RawProbe : Type 0 where
  pub format_name : Text
  pub duration : Text
  pub size : Text
  pub streams : List RawStream

-- An absent key of a Go map reads as the empty text.
abbrev pub tag : List (Text × Text) → Text → Text
tag m k = elim (lookup_text k m) [ none ↦ [] | some v ↦ v ]

abbrev pub or_else : Text → Text → Text
or_else a b = if is_empty a then b else a

-- The first of the three that parses, else 0.
abbrev pub bit_rate_of : RawStream → ℤ
bit_rate_of s =
    let a = parse_int s.bit_rate in
    let b = parse_int (tag s.tags (text "BPS")) in
    let c = parse_int (tag s.tags (text "BPS-eng")) in
    if a.1 then a.0 else if b.1 then b.0 else if c.1 then c.0 else pos 0

unfoldable pub parse_stream : RawStream → Stream
parse_stream s = record {
  index = s.index;
  mkv_id = minus_one;
  type = if eq_ℤ s.attached_pic (pos 1) then text "attachment" else s.codec_type;
  codec = s.codec_name;
  lang = or_else (tag s.tags (text "language")) (tag s.tags (text "LANGUAGE"));
  title = or_else (tag s.tags (text "title")) (tag s.tags (text "TITLE"));
  channels = s.channels;
  channel_layout = s.channel_layout;
  default = eq_ℤ s.default (pos 1);
  forced = eq_ℤ s.forced (pos 1);
  bit_rate = bit_rate_of s;
}

pub data ProbeError : Type 0 where
  no_ffprobe ffprobe_failed bad_json no_streams : ProbeError

module _ {D : Type 0} ⦃f : Float D⦄ where
  unfoldable pub parse_ffprobe : Option RawProbe → Text → Outcome ProbeError (Result D)
  unfolding parse_stream
  parse_ffprobe none path = err bad_json
  parse_ffprobe (some raw) path =
      let streams = map parse_stream raw.streams in
      if length streams == 0
      then err no_streams
      else ok (record {
        path = path;
        format = raw.format_name;
        duration = f.parse raw.duration;
        size = (parse_int raw.size).0;
        streams = streams;
      })
