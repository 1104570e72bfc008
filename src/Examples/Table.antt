-- ===== src/Examples/Table.antt =====
-- A jobs table with a job that failed, one that runs and two that wait.
use muxprune.Base.{ℕ, some, [], ◌∷◌, arith, text, pos}
use muxprune.Store.Payload.{empty_payload}
use muxprune.Store.Jobs.{
  Job, Jobs, Status, queued, running, failed, remux, NewJob, claim_next_job, get_job, retry_job,
}
use muxprune.Store.Jobs.Rows.{HasUniqueIds}
use muxprune.Store.Jobs.Claim.{Claimed, claim_next_job-Claimed}
use muxprune.Store.Jobs.Retry.{RetryAnswer, retry_job_answer}

abbrev pub row : ℕ → Status → Job
row i s = record {
  id = i;
  type = remux;
  file_id = some 1;
  file_path = text "/m/a.mkv";
  payload = empty_payload;
  status = s;
  attempts = 0;
  file_size = some 100;
  file_mtime = some (pos 7);
  log = [];
  bytes_saved = pos 0;
  created_at = 1;
  finished_at = 0;
}

abbrev pub table : Jobs
table = row 5 failed ∷ row 9 queued ∷ row 6 running ∷ row 7 queued ∷ []

pub table-HasUniqueIds : HasUniqueIds table
table-HasUniqueIds = (
  (λ e. omega arith, (λ e. omega arith, (λ e. omega arith, tt))),
  ((λ e. omega arith, (λ e. omega arith, tt)), ((λ e. omega arith, tt), (tt, tt))),
)

claim_next_job-Claimed_example : Claimed table (claim_next_job table).0 (claim_next_job table).1
claim_next_job-Claimed_example = claim_next_job-Claimed table table-HasUniqueIds

retry_job_answer_example : RetryAnswer 5 3 table (get_job 5 table) (retry_job 5 3 table)
retry_job_answer_example = retry_job_answer 5 3 table table-HasUniqueIds

abbrev pub new_job : NewJob
new_job = record {
  type = remux;
  file_id = 1;
  file_path = text "/m/a.mkv";
  payload = empty_payload;
  media_size = some 100;
  media_mtime = some (pos 7);
}
