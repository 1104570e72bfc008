-- ===== src/Examples/Machine.antt =====
-- A machine with one Matroska file: a mkvmerge that writes its output where it is told to, an
-- ffprobe that reports one audio stream less for every other path, and no `nice`.
use muxprune.Base.{
  ℕ, ◌≡◌, ◌≢◌, ◌∙◌, ap, ◌⊎◌, Option-cases, is_empty, refl, Bool, true, false, Option, none, some,
  List, [], ◌∷◌, ◌++◌, arith, Text, text, text_eq, ℤ, pos, negsuc, sub_ℕ, Outcome, ok, err,
  Bool-cases, inl, inr, if◌then◌else◌,
}
use muxprune.Probe.{Stream, MkvTrack, audio, video, subtitle}
use muxprune.Probe.Parse.{RawStream, RawProbe, ProbeError}
use muxprune.Probe.Run.{Prober}
use muxprune.Engine.{
  EngineError, EngineResult, RemovalSpec, Options, Tools, is_mkvmerge, with_output, normalise,
  verify_result,
}
use muxprune.Engine.Io.{FileInfo, File, Fs, Os, exit_ok, write_entry}
use muxprune.Engine.Replace.{wrap_nice}
use muxprune.Engine.Remux.{
  Prepared, prepare_removal, remove_tracks, reorder_tracks, merge_tracks, reorder_args, merge_args,
}
use muxprune.Engine.Clean.{ReadsOnly, FailsClean}
use muxprune.Engine.Frame.{SameBut-write_entry}
use muxprune.Engine.Untouched.{WritesOutputOnly}
use muxprune.Engine.Failure.{
  remove_tracks-FailsClean, remove_tracks-dry_run, reorder_tracks-FailsClean,
  merge_tracks-FailsClean,
}
use muxprune.Engine.Verified.{Verified}
use muxprune.Engine.Removal.{
  Installed, removal_command, remove_tracks_installs, remove_tracks_keeps_others,
}
use muxprune.Examples.Tracks.{wholes, ident, spec, no_options}

abbrev pub movie : Text
movie = text "/m/a.mkv"

abbrev pub info_of : ℕ → ℕ → FileInfo
info_of ino size = record {
  ino = ino;
  size = size;
  mtime = pos 7;
  is_symlink = false;
  is_dir = false;
  nlink = 1;
  perm = 420;
  uid = 1000;
  gid = 1000;
}

abbrev subtitles : Text
subtitles = text "/m/b.srt"

abbrev pub disk : Fs
disk p =
    if text_eq p movie
    then some (record { info = info_of 3 100; content = text "all" })
    else if text_eq p subtitles
    then some (record { info = info_of 5 10; content = text "words" })
    else none

abbrev raw_stream : ℕ → Text → RawStream
raw_stream i t = record {
  index = pos i;
  codec_type = t;
  codec_name = [];
  channels = pos 2;
  channel_layout = [];
  bit_rate = [];
  default = pos 0;
  forced = pos 0;
  attached_pic = pos 0;
  tags = [];
}

abbrev document : List RawStream → Text → RawProbe
document ss size = record {
  format_name = text "matroska,webm";
  duration = text "90.0";
  size = size;
  streams = ss;
}

abbrev report : Text → Outcome ProbeError (Option RawProbe)
report p =
    if text_eq p movie
    then ok (
        some (
          document
            (raw_stream 0 video
              ∷ raw_stream 1 audio
              ∷ raw_stream 2 audio
              ∷ raw_stream 3 subtitle
              ∷ [])
            (text "100")))
    else ok (some (document (raw_stream 0 video ∷ raw_stream 1 audio ∷ []) (text "60")))

abbrev prober : Prober
prober = record {
  ffprobe_bin = text "ffprobe";
  mkvmerge_bin = text "mkvmerge";
  ffprobe = report;
  identify = λ p. some ident;
}

-- Where the command line says that the output goes.
abbrev first_of : List Text → Text
first_of [] = []
first_of (x ∷ xs) = x

abbrev last_of : List Text → Text
last_of [] = []
last_of (x ∷ []) = x
last_of (x ∷ y ∷ xs) = last_of (y ∷ xs)

abbrev third_of : List Text → Text
third_of (a ∷ b ∷ c ∷ rest) = c
third_of _ = []

abbrev target : Text → List Text → Text
target bin args = if is_mkvmerge bin then third_of args else last_of args

abbrev pub made : File
made = record { info = info_of 4 60; content = text "less" }

abbrev new_name : Fs → Outcome Text Text
new_name fs = elim (fs (text "/m/.tmp")) [
  | none ↦ ok (text "/m/.tmp")
  | some _ ↦ err (text "exists")
]

abbrev info_at : Fs → Text → Option FileInfo
info_at fs p = elim (fs p) [ none ↦ none | some f ↦ some f.info ]

abbrev pub machine : Os
machine = record {
  prober = λ fs. prober;
  stat = info_at;
  abs = λ p. ok p;
  eval_symlinks = λ fs p. some p;
  free_space = λ fs d. some 1000;
  temp_name = λ fs d pattern. new_name fs;
  temp_file = λ fs p. record { info = info_of 4 0; content = [] };
  close_error = λ fs p. none;
  exec = λ bin args fs. (
    record { exit = exit_ok; cancelled = false; stderr = [] },
    write_entry (target bin args) (some made) fs,
  );
  open_error = λ fs p. none;
  sync_error = λ fs p. none;
  chmod_ok = λ fs p. true;
  chown_ok = λ fs p. false;
  chgrp_ok = λ fs p. true;
  rename_error = λ fs src dst. none;
  remove_ok = λ fs p. true;
  nice = [];
  ionice = [];
}

abbrev pub tools : Tools
tools = record { ffmpeg = text "ffmpeg"; mkvmerge = text "mkvmerge"; mkvpropedit = [] }

last_of-append : (args : List Text) (x : Text) → last_of (args ++ x ∷ []) ≡ x
last_of-append [] x = refl
last_of-append (a ∷ []) x = refl
last_of-append (a ∷ b ∷ args) x = last_of-append (b ∷ args) x

abbrev pub order : List ℤ
order = pos 0 ∷ pos 2 ∷ pos 1 ∷ pos 3 ∷ []

abbrev pub files : List Text
files = text "/m/a.srt" ∷ []

new_name_free : (fs : Fs) (name : Text) → new_name fs ≡ ok name → fs name ≡ none
new_name_free fs name e = elim (Option-cases (fs (text "/m/.tmp"))) [
  | inl h ↦ ground arith
  | inr (f, h) ↦ absurd (ground arith)
]

target-with_output :
    (tool : Text) (args : List Text) (tmp : Text) → target tool (with_output tool args tmp) ≡ tmp
unfolding with_output
target-with_output tool args tmp = elim (Bool-cases (is_mkvmerge tool)) [
  | inl e ↦ rw e refl
  | inr e ↦ rw e (last_of-append args tmp)
]

pub with_output-WritesOutputOnly :
    (tool : Text) (args : List Text) → WritesOutputOnly machine tool (with_output tool args)
with_output-WritesOutputOnly tool args = record {
  tool_writes = λ tmp fs p ne.
      unfold wrap_nice is_empty in
      SameBut-write_entry (target tool (with_output tool args tmp)) (some made) fs p
        (λ e. ne (e ∙ target-with_output tool args tmp));
  name_is_new = λ fs d pattern name e. new_name_free fs name e;
}

remove_tracks-FailsClean_example :
    FailsClean (remove_tracks wholes machine tools movie spec no_options)
remove_tracks-FailsClean_example =
    remove_tracks-FailsClean wholes machine tools movie spec no_options with_output-WritesOutputOnly

abbrev try_only : Options
try_only = record { allow_hardlink = false; allow_last_audio = false; dry_run = true }

remove_tracks-dry_run_example : ReadsOnly (remove_tracks wholes machine tools movie spec try_only)
remove_tracks-dry_run_example = remove_tracks-dry_run wholes machine tools movie spec try_only refl

named_mkvmerge : is_mkvmerge (text "mkvmerge") ≡ true
unfolding muxprune.Probe.contains muxprune.Base.base muxprune.Base.has_prefix
named_mkvmerge = refl

pub reorder_args-WritesOutputOnly :
    (path : Text) (ss : List Stream) (is : List ℤ)
    → WritesOutputOnly machine tools.mkvmerge (reorder_args path ss is)
reorder_args-WritesOutputOnly path ss is = record {
  tool_writes = λ tmp fs.
      unfold wrap_nice is_empty in rw named_mkvmerge (SameBut-write_entry tmp (some made) fs);
  name_is_new = λ fs d pattern name e. new_name_free fs name e;
}

pub merge_args-WritesOutputOnly :
    (path : Text) (xs : List Text) → WritesOutputOnly machine tools.mkvmerge (merge_args path xs)
merge_args-WritesOutputOnly path xs = record {
  tool_writes = λ tmp fs.
      unfold wrap_nice is_empty in rw named_mkvmerge (SameBut-write_entry tmp (some made) fs);
  name_is_new = λ fs d pattern name e. new_name_free fs name e;
}

reorder_tracks-FailsClean_example :
    FailsClean (reorder_tracks wholes machine tools movie order false)
reorder_tracks-FailsClean_example =
    reorder_tracks-FailsClean wholes machine tools movie order false
      (λ ss. reorder_args-WritesOutputOnly movie ss order)

merge_tracks-FailsClean_example :
    FailsClean (merge_tracks wholes machine tools none movie files false)
merge_tracks-FailsClean_example =
    merge_tracks-FailsClean wholes machine tools none movie files false
      (merge_args-WritesOutputOnly movie files)

abbrev removal : Outcome EngineError EngineResult × Fs
removal = remove_tracks wholes machine tools movie spec no_options disk

abbrev pruned : EngineResult
pruned = record {
  tool = text "mkvmerge";
  command = text "mkvmerge --audio-tracks 1 --no-subtitles /m/a.mkv";
  bytes_saved = pos 40;
  dry_run = false;
}

removal_runs : removal.0 ≡ ok pruned
unfolding remove_tracks muxprune.Engine.Replace.stat_replaceable text_eq muxprune.Probe.Run.probe
    is_empty muxprune.Probe.Parse.parse_ffprobe muxprune.Engine.validate muxprune.Engine.check_types
    muxprune.Engine.sort_compact muxprune.Engine.by_idx muxprune.Probe.is_matroska
    muxprune.Probe.contains muxprune.Base.has_prefix muxprune.Probe.attach_mkv_ids
    muxprune.Probe.align_mkv_ids muxprune.Probe.align_loop muxprune.Probe.tracks_of
    muxprune.Base.to_lower muxprune.Base.itoa muxprune.Base.show_nat muxprune.Base.◌+ℤ◌
    muxprune.Base.◌-ℤ◌ muxprune.Base.exists_in muxprune.Base.keep_if muxprune.Base.after_slash
    muxprune.Base.base muxprune.Base.clean muxprune.Base.clean_parts muxprune.Base.dir
    muxprune.Base.drop_slashes muxprune.Base.ext_from muxprune.Base.has_suffix muxprune.Base.join
    muxprune.Base.split_on muxprune.Base.trim_suffix muxprune.Base.until_slash prepare_removal
    muxprune.Engine.Remux.remux muxprune.Engine.Remux.run_and_replace
    muxprune.Engine.Replace.check_hardlinks muxprune.Engine.Replace.check_space
    muxprune.Engine.Replace.preserve_attrs muxprune.Engine.Replace.rename
    muxprune.Engine.Replace.replace_original muxprune.Engine.Replace.swap_in
    muxprune.Engine.Replace.sync_file muxprune.Engine.Replace.tail_of
    muxprune.Engine.Replace.temp_path muxprune.Engine.Replace.trim_space wrap_nice
    muxprune.Engine.build_args muxprune.Engine.compact muxprune.Engine.contains_int
    muxprune.Engine.drifted muxprune.Engine.ffmpeg_args muxprune.Engine.insert_int
    muxprune.Engine.insert_text muxprune.Engine.mkv_ids_known muxprune.Engine.mkvmerge_args
    muxprune.Engine.position_from muxprune.Engine.removed_bitrates_known muxprune.Engine.size_floor
    muxprune.Engine.sort_ints muxprune.Engine.sort_texts muxprune.Engine.sum_removed
    muxprune.Engine.text_le verify_result with_output muxprune.Probe.Parse.parse_int
    muxprune.Probe.Parse.parse_stream muxprune.Probe.Parse.read_digits
    muxprune.Probe.codecs_compatible muxprune.Probe.count_check muxprune.Probe.ff_type
    muxprune.Probe.langs_compatible muxprune.Probe.lookup_text muxprune.Probe.safe_path_arg
removal_runs = refl

removal_returns : removal ≡ (ok pruned, removal.1)
removal_returns = λ i. (removal_runs i, removal.1)

remove_tracks_installs_example :
    (p : Prepared ℤ) × (size : ℕ) × (prepare_removal ⦃f = wholes⦄ machine tools movie spec
        no_options disk
      ≡ (ok p, disk))
    × (done : Installed ⦃f = wholes⦄ machine
        (removal_command machine p)
        (verify_result ⦃f = wholes⦄ p.probed (normalise spec))
        movie
        p.info
        size
        disk
        removal.1)
    × Verified ⦃f = wholes⦄ p.probed (normalise spec) done.output
    × (pruned.bytes_saved ≡ sub_ℕ p.info.size size)
remove_tracks_installs_example =
    remove_tracks_installs wholes machine tools movie spec no_options disk {res = pruned}
      {fs' = removal.1} ((with_output-WritesOutputOnly [] []).name_is_new) refl removal_returns

is_beside : disk subtitles ≢ none
unfolding text_eq
is_beside e = cc

not_the_movie : subtitles ≢ movie
unfolding text_eq
not_the_movie e = let h : true ≡ false = ap (text_eq subtitles) e in absurd cc

remove_tracks_keeps_others_example : removal.1 subtitles ≡ disk subtitles
remove_tracks_keeps_others_example =
    remove_tracks_keeps_others wholes machine tools movie spec no_options disk {res = pruned}
      {fs' = removal.1} with_output-WritesOutputOnly refl removal_returns subtitles is_beside
      not_the_movie
