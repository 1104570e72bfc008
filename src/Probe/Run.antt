-- ===== src/Probe/Run.antt =====
-- `Prober.Probe`: ffprobe's document, with mkvmerge's track numbers for a Matroska file.
use muxprune.Base.{
  not, ◌&&◌, Option, List, Text, is_empty, Outcome, ok, err, ◌>>=◌, Float, if◌then◌else◌,
}
use muxprune.Probe.{Result, MkvTrack, is_matroska, attach_mkv_ids}
use muxprune.Probe.Parse.{RawProbe, ProbeError, no_ffprobe, parse_ffprobe}

-- The binaries in PATH, and what they print for a path: `ffprobe` fails or prints a document (`none`
-- where its JSON is refused), `identify` is `mkvmerge -J`, `none` where it fails or is refused.
pub record Prober : Type 0 where
  pub ffprobe_bin : Text
  pub mkvmerge_bin : Text
  pub ffprobe : Text → Outcome ProbeError (Option RawProbe)
  pub identify : Text → Option (List MkvTrack)

module _ {D : Type 0} ⦃f : Float D⦄ where
  abbrev pub number_tracks : Prober → Text → Result D → Result D
  number_tracks p path res =
      if is_matroska res && not (is_empty p.mkvmerge_bin)
      then record res { streams = attach_mkv_ids (p.identify path) res.streams }
      else res

  unfoldable pub probe : Prober → Text → Outcome ProbeError (Result D)
  probe p path =
      if is_empty p.ffprobe_bin
      then err no_ffprobe
      else do raw ← p.ffprobe path; res ← parse_ffprobe raw path; ok (number_tracks p path res)
