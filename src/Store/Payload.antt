-- ===== src/Store/Payload.antt =====
-- The JSON payloads of jobs (internal/jobs/runner.go): what the handlers marshal, and what
-- `json.Unmarshal` reads back. A payload of another kind has none of the wanted fields but
-- perhaps `allow_hardlink`, which leaves the zero values.
use muxprune.Base.{ℕ, Bool, false, Option, none, some, List, [], Text, ℤ, Outcome, ok, err}

pub record MetadataEdit : Type 0 where
  pub track_index : ℤ
  pub language : Text
  pub title : Option Text
  pub default : Option Bool
  pub forced : Option Bool

pub record RemuxPayload : Type 0 where
  pub audio_idx : List ℤ
  pub sub_idx : List ℤ
  pub allow_hardlink : Bool
  pub allow_last_audio : Bool

pub record SidecarPayload : Type 0 where
  pub sidecar_id : ℕ
  pub path : Text

pub record EditMetadataPayload : Type 0 where
  pub edits : List MetadataEdit
  pub allow_hardlink : Bool

pub record ReorderPayload : Type 0 where
  pub track_order : List ℤ
  pub allow_hardlink : Bool

pub record MergePayload : Type 0 where
  pub external_files : List Text
  pub allow_hardlink : Bool

pub record ScanLibraryPayload : Type 0 where
  pub library_id : ℕ

-- The text that a row holds. `malformed` is what no decoder accepts.
pub data Payload : Type 0 where
  remux_payload : RemuxPayload → Payload
  sidecar_payload : SidecarPayload → Payload
  edit_payload : EditMetadataPayload → Payload
  reorder_payload : ReorderPayload → Payload
  merge_payload : MergePayload → Payload
  scan_payload : ScanLibraryPayload → Payload
  empty_payload : Payload
  malformed : Text → Payload

abbrev pub decode_scan : Payload → Option ScanLibraryPayload
decode_scan (scan_payload p) = some p
decode_scan (malformed _) = none
decode_scan _ = some (record { library_id = 0 })

-- The key `allow_hardlink`, which four kinds of payload share; an absent key reads as false.
abbrev pub hardlink_flag : Payload → Bool
hardlink_flag (remux_payload p) = p.allow_hardlink
hardlink_flag (edit_payload p) = p.allow_hardlink
hardlink_flag (reorder_payload p) = p.allow_hardlink
hardlink_flag (merge_payload p) = p.allow_hardlink
hardlink_flag _ = false

-- `json.Unmarshal` into each type; the error is the text that it refuses.
abbrev pub decode_remux : Payload → Outcome Text RemuxPayload
decode_remux (remux_payload p) = ok p
decode_remux (malformed t) = err t
decode_remux p = ok (record {
  audio_idx = [];
  sub_idx = [];
  allow_hardlink = hardlink_flag p;
  allow_last_audio = false;
})

abbrev pub decode_sidecar : Payload → Outcome Text SidecarPayload
decode_sidecar (sidecar_payload p) = ok p
decode_sidecar (malformed t) = err t
decode_sidecar _ = ok (record { sidecar_id = 0; path = [] })

abbrev pub decode_edit : Payload → Outcome Text EditMetadataPayload
decode_edit (edit_payload p) = ok p
decode_edit (malformed t) = err t
decode_edit p = ok (record { edits = []; allow_hardlink = hardlink_flag p })

abbrev pub decode_reorder : Payload → Outcome Text ReorderPayload
decode_reorder (reorder_payload p) = ok p
decode_reorder (malformed t) = err t
decode_reorder p = ok (record { track_order = []; allow_hardlink = hardlink_flag p })

abbrev pub decode_merge : Payload → Outcome Text MergePayload
decode_merge (merge_payload p) = ok p
decode_merge (malformed t) = err t
decode_merge p = ok (record { external_files = []; allow_hardlink = hardlink_flag p })
