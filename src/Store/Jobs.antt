-- ===== src/Store/Jobs.antt =====
-- The `jobs` table of internal/store/store.go. A statement is a function on the list of rows, in
-- the order of insertion; `now` is the clock of the call.
pub mod Rows
pub mod Claim
pub mod Retry
pub mod Life
pub mod Moves
pub mod Listing
use Prim.Native.Nat.{max}
use muxprune.Base.{
  ℕ, suc, ◌+◌, Bool, true, false, not, ◌&&◌, ◌||◌, Option, none, some, List, [], ◌∷◌, ◌++◌, map,
  Text, text, ℤ, pos, Outcome, ok, err, ltb, ◌==◌, if◌then◌else◌, length, keep_if, find_first,
  exists_in,
}
use muxprune.Store.Payload.{Payload, decode_scan}

pub data JobType : Type 0 where
  remux edit_metadata reorder_tracks merge_tracks delete_sidecar scan_library scan_all : JobType
  other_type : Text → JobType

pub data Status : Type 0 where
  queued running done failed skipped cancelled : Status

pub record Job : Type 0 where
  pub id : ℕ
  pub type : JobType
  pub file_id : Option ℕ
  pub file_path : Text
  pub payload : Payload
  pub status : Status
  pub attempts : ℕ
  pub file_size : Option ℕ
  pub file_mtime : Option ℤ
  pub log : Text
  pub bytes_saved : ℤ
  pub created_at : ℕ
  pub finished_at : ℕ

abbrev pub Jobs : Type 0
Jobs = List Job

abbrev pub is_queued : Status → Bool
is_queued queued = true
is_queued _ = false

abbrev pub is_running : Status → Bool
is_running running = true
is_running _ = false

-- `status IN ('queued','running')`
abbrev pub is_active : Status → Bool
is_active queued = true
is_active running = true
is_active _ = false

-- `status IN ('failed','skipped','cancelled')`
abbrev pub is_retryable : Status → Bool
is_retryable failed = true
is_retryable skipped = true
is_retryable cancelled = true
is_retryable _ = false

abbrev pub has_id : ℕ → Job → Bool
has_id i j = j.id == i

abbrev pub media_file_id : Job → ℕ
media_file_id j = elim j.file_id [ none ↦ 0 | some i ↦ i ]

-- `INTEGER PRIMARY KEY`: a new row takes the largest id in use, plus one.
unfoldable pub max_id : Jobs → ℕ
max_id [] = 0
max_id (j ∷ js) = max j.id (max_id js)

abbrev pub next_id : Jobs → ℕ
next_id js = max_id js + 1

-- `UPDATE jobs SET ... WHERE ...`, with the count of rows affected.
unfoldable pub update_where : (Job → Bool) → (Job → Job) → Jobs → Jobs
update_where p f [] = []
update_where p f (j ∷ js) = let rest = update_where p f js in (if p j then f j else j) ∷ rest

abbrev pub rows_affected : (Job → Bool) → Jobs → ℕ
rows_affected p js = length (keep_if p js)

-- `SELECT id FROM jobs WHERE status='queued' ORDER BY id LIMIT 1`
abbrev pub smaller : ℕ → Option ℕ → Option ℕ
smaller i none = some i
smaller i (some k) = if ltb i k then some i else some k

unfoldable pub oldest_queued : Jobs → Option ℕ
oldest_queued [] = none
oldest_queued (j ∷ js) =
    let rest = oldest_queued js in if is_queued j.status then smaller j.id rest else rest

-- `RETURNING` lists no log, bytes_saved or finished_at: those fields are zero in what is returned.
abbrev pub claimed_view : Job → Job
claimed_view j = record j { status = running; log = []; bytes_saved = pos 0; finished_at = 0 }

abbrev pub start_job : Job → Job
start_job j = record j { status = running }

abbrev pub claim_row : Jobs → Option ℕ → Jobs × Option Job
claim_row js none = (js, none)
claim_row js (some i) = (
  update_where (has_id i) start_job js,
  elim (find_first (has_id i) js) [ none ↦ none | some j ↦ some (claimed_view j) ],
)

unfoldable pub claim_next_job : Jobs → Jobs × Option Job
claim_next_job js = claim_row js (oldest_queued js)

unfoldable pub finish_job : ℕ → Status → Text → ℤ → ℕ → Jobs → Jobs
finish_job i status log saved now js =
    update_where (has_id i)
      (λ j. record j { status = status; log = log; bytes_saved = saved; finished_at = now }) js

-- The errors of the statements on jobs; each holds what its message prints.
pub data JobError : Type 0 where
  not_queued : ℕ → JobError
  not_found : ℕ → JobError
  not_retryable : ℕ → Status → JobError
  cannot_delete : ℕ → JobError

unfoldable pub cancel_job : ℕ → ℕ → Jobs → Outcome JobError (Unit {0}) × Jobs
cancel_job i now js =
    let test : Job → Bool = λ j. has_id i j && is_queued j.status in
    (
      if rows_affected test js == 0 then err (not_queued i) else ok tt,
      update_where test
          (λ j. record j { status = cancelled; log = text "cancelled by user"; finished_at = now })
          js,
    )

unfoldable pub get_job : ℕ → Jobs → Option Job
get_job i js = find_first (has_id i) js

-- `INSERT ... SELECT`: the columns not named take their defaults.
abbrev pub retry_row : ℕ → ℕ → Job → Job
retry_row i now j = record j {
  id = i;
  status = queued;
  created_at = now;
  attempts = j.attempts + 1;
  log = [];
  bytes_saved = pos 0;
  finished_at = 0;
}

-- The row that `SELECT ... WHERE id=? AND status IN (...)` finds.
abbrev pub retry_source : ℕ → Jobs → Option Job
retry_source i js = find_first (λ j. has_id i j && is_retryable j.status) js

-- The new row is read again with `GetJob`.
unfoldable pub retry_job : ℕ → ℕ → Jobs → Outcome JobError (Option Job) × Jobs
unfolding get_job
retry_job i now js = elim (retry_source i js) [
  | some j ↦
      (let rows = js ++ retry_row (next_id js) now j ∷ [] in (ok (get_job (next_id js) rows), rows))
  | none ↦ elim (get_job i js) [
    | none ↦ (err (not_found i), js)
    | some j ↦ (err (not_retryable i j.status), js)
  ]
]

unfoldable pub delete_job : ℕ → Jobs → Outcome JobError (Unit {0}) × Jobs
delete_job i js =
    let test : Job → Bool = λ j. has_id i j && not (is_running j.status) in
    (
      if rows_affected test js == 0 then err (cannot_delete i) else ok tt,
      keep_if (λ j. not (test j)) js,
    )

unfoldable pub fail_interrupted : ℕ → Jobs → ℕ × Jobs
fail_interrupted now js = (
  rows_affected (λ j. is_running j.status) js,
  update_where (λ j. is_running j.status)
      (λ j. record j { status = failed; log = text "interrupted by restart"; finished_at = now })
      js,
)

abbrev pub is_scan_all : Job → Bool
is_scan_all j = elim j.type [ scan_all ↦ true | _ ↦ false ]

-- The rows of `scan_library` whose payload names the library; a payload that does not decode is
-- passed over.
abbrev pub is_scan_of : ℕ → Job → Bool
is_scan_of lib j = elim j.type [
  | scan_library ↦ elim (decode_scan j.payload) [ none ↦ false | some p ↦ p.library_id == lib ]
  | _ ↦ false
]

unfoldable pub scan_in_status : (Status → Bool) → ℕ → Jobs → Bool
scan_in_status wanted lib js =
    if ltb 0 (rows_affected (λ j. is_scan_all j && wanted j.status) js)
    then true
    else exists_in (λ j. wanted j.status && is_scan_of lib j) js

unfoldable pub is_scan_active : ℕ → Jobs → Bool
unfolding scan_in_status
is_scan_active = scan_in_status is_active

unfoldable pub is_scan_queued : ℕ → Jobs → Bool
unfolding scan_in_status
is_scan_queued = scan_in_status is_queued

unfoldable pub is_scan_all_active : Jobs → Bool
is_scan_all_active js = ltb 0 (rows_affected (λ j. is_scan_all j && is_active j.status) js)

-- `CreateJob`. The size and mtime of the media file, if it has a row, are stamped on the job.
pub record NewJob : Type 0 where
  pub type : JobType
  pub file_id : ℕ
  pub file_path : Text
  pub payload : Payload
  pub media_size : Option ℕ
  pub media_mtime : Option ℤ

abbrev pub nullable : ℕ → Option ℕ
nullable i = if i == 0 then none else some i

abbrev pub created_row : ℕ → NewJob → ℕ → Job
created_row now n i = record {
  id = i;
  type = n.type;
  file_id = nullable n.file_id;
  file_path = n.file_path;
  payload = n.payload;
  status = queued;
  attempts = 0;
  file_size = n.media_size;
  file_mtime = n.media_mtime;
  log = [];
  bytes_saved = pos 0;
  created_at = now;
  finished_at = 0;
}

unfoldable pub create_job : ℕ → NewJob → Jobs → Job × Jobs
create_job now n js = let row = created_row now n (next_id js) in (row, js ++ row ∷ [])
