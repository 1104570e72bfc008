-- ===== src/Engine/Types.antt =====
-- The records and errors of internal/engine/engine.go.
use muxprune.Base.{ℕ, Bool, true, false, ◌&&◌, List, Text, ℤ, ◌==◌, length}
use muxprune.Probe.Parse.{ProbeError}

pub record RemovalSpec : Type 0 where
  pub audio_idx : List ℤ
  pub sub_idx : List ℤ

pub record Options : Type 0 where
  pub allow_hardlink : Bool
  pub allow_last_audio : Bool
  pub dry_run : Bool

pub record EngineResult : Type 0 where
  pub tool : Text
  pub command : Text
  pub bytes_saved : ℤ
  pub dry_run : Bool

-- The binaries that were found in PATH; the empty text where there is none.
pub record Tools : Type 0 where
  pub ffmpeg : Text
  pub mkvmerge : Text
  pub mkvpropedit : Text

-- The errors that the operations return. `skipped_*` are those that wrap `ErrSkipped`; `os_error`
-- is an error of the operating system, passed on.
pub data EngineError : Type 0 where
  skipped_hardlinks : ℕ → EngineError
  skipped_symlink : Text → EngineError
  probe_error : ProbeError → EngineError
  os_error : Text → EngineError
  nothing_to_remove no_edits no_track_order no_external_files not_matroska : EngineError
  tool_missing : Text → EngineError
  no_remux_tool last_audio no_video : EngineError
  not_audio : ℤ → EngineError
  not_subtitle : ℤ → EngineError
  stream_not_found : ℤ → EngineError
  stream_without_id : ℤ → EngineError
  duplicate_stream : ℤ → EngineError
  wrong_track_count : ℕ → ℕ → EngineError
  bad_language : Text → EngineError
  no_space : Text → ℕ → ℕ → EngineError
  tool_failed : Text → Text → EngineError
  video_count_changed audio_count_changed subtitle_count_changed : EngineError
  duration_drifted : EngineError
  output_too_small : ℤ → ℤ → EngineError
  verification_failed : EngineError → EngineError
  original_changed : Text → EngineError
  sync_failed : Text → EngineError
  rename_failed : Text → EngineError
  invisible_stream : ℤ → EngineError
  merge_into_itself : Text → EngineError
  duplicate_external : Text → EngineError
  outside_roots : Text → EngineError
  not_accessible : Text → EngineError
  is_directory : Text → EngineError
  bad_external_name : Text → EngineError
  not_a_subtitle : Text → EngineError

-- `errors.Is(err, ErrSkipped)`
abbrev pub is_skipped : EngineError → Bool
is_skipped (skipped_hardlinks n) = true
is_skipped (skipped_symlink p) = true
is_skipped _ = false

abbrev pub spec_empty : RemovalSpec → Bool
spec_empty r = length r.audio_idx == 0 && length r.sub_idx == 0
