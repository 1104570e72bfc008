-- ===== src/Store/Jobs/Retry.antt =====
-- `RetryJob`: the new row, and the two refusals.
use muxprune.Base.{
  ℕ, ◌+◌, ◌≢◌, true, false, pos, Outcome, ◌≡◌, ◌⊎◌, ◌∙◌, refl, Option, none, some, [], ◌∷◌, ◌++◌,
  arith, ok, err, if◌then◌else◌, Option-cases, Bool-cases, find_first, inl, inr,
}
use muxprune.Store.Jobs.{
  Job, Jobs, JobError, queued, is_retryable, next_id, not_found, not_retryable, get_job,
  retry_source, retry_row, retry_job,
}
use muxprune.Store.Jobs.Rows.{HasUniqueIds, get_job_fresh, get_job-append, next_id-IsFresh}

stored_row :
    (now : ℕ) (js : Jobs) (r : Job)
    → get_job (next_id js) (js ++ retry_row (next_id js) now r ∷ [])
      ≡ some (retry_row (next_id js) now r)
stored_row now js r =
    ground
      (arith, get_job-append (next_id js) js (retry_row (next_id js) now r) (next_id-IsFresh js))

pub retry_job-source :
    (i now : ℕ) (js : Jobs) {r : Job}
    → retry_source i js ≡ some r
    → retry_job i now js
      ≡ (ok (some (retry_row (next_id js) now r)), js ++ retry_row (next_id js) now r ∷ [])
unfolding retry_job
retry_job-source i now js {r} e = rw (e, retry_job) (rw (stored_row now js r) refl)

pub retry_job-missing :
    (i now : ℕ) (js : Jobs)
    → retry_source i js ≡ none
    → get_job i js ≡ none
    → retry_job i now js ≡ (err (not_found i), js)
unfolding retry_job
retry_job-missing i now js e g = rw (e, retry_job) (rw (g, get_job))

pub retry_job-refused :
    (i now : ℕ) (js : Jobs) {r : Job}
    → retry_source i js ≡ none
    → get_job i js ≡ some r
    → retry_job i now js ≡ (err (not_retryable i r.status), js)
unfolding retry_job
retry_job-refused i now js e g = rw (e, retry_job) (rw (g, get_job))

-- Either nothing is inserted, or a new row is.
pub retry_job-rows :
    (i now : ℕ) (js : Jobs)
    → ((retry_job i now js).1 ≡ js)
      ⊎ ((r : Job) × ((retry_job i now js).1 ≡ js ++ retry_row (next_id js) now r ∷ []))
retry_job-rows i now js = elim (Option-cases (retry_source i js)) [
  | inr (r, e) ↦ inr (r, rw (retry_job-source i now js e))
  | inl e ↦ elim (Option-cases (get_job i js)) [
    | inl g ↦ inl (rw (retry_job-missing i now js e g))
    | inr (r, g) ↦ inl (rw (retry_job-refused i now js e g))
  ]
]

-- With unique identifiers the row that the statement selects is the row of that identifier, if it
-- may be retried.
retry_source-eq :
    (i : ℕ) (js : Jobs)
    → HasUniqueIds js
    → retry_source i js ≡ elim (get_job i js) [
      | none ↦ none
      | some r ↦ (if is_retryable r.status then some r else none)
    ]
unfolding get_job find_first
retry_source-eq i [] u = refl
retry_source-eq i (j ∷ js) u = ground (arith, retry_source-eq i js u.1, get_job_fresh j.id js u.0)

-- What `retry_job` promises where the job may be retried: a row of its own, queued and clean, for
-- the same work.
pub record Retried (i now : ℕ) (js next : Jobs) (old new : Job) : Type 0 where
  pub unused : (j : Job) → get_job new.id js ≢ some j
  pub is_queued_again : new.status ≡ queued
  pub one_more : new.attempts ≡ old.attempts + 1
  pub no_log : new.log ≡ []
  pub nothing_saved : new.bytes_saved ≡ pos 0
  pub times : (new.created_at ≡ now) × (new.finished_at ≡ 0)
  pub same_work : (new.type ≡ old.type) × (new.payload ≡ old.payload)
  pub same_file : (new.file_id ≡ old.file_id) × (new.file_path ≡ old.file_path)
  pub same_fingerprint : (new.file_size ≡ old.file_size) × (new.file_mtime ≡ old.file_mtime)
  pub stored : get_job new.id next ≡ some new
  pub old_kept : get_job i next ≡ some old
  pub others : (k : ℕ) → k ≢ new.id → get_job k next ≡ get_job k js

module _ (i now : ℕ) (js : Jobs) where
  abbrev pub RetryAnswer : Option Job → Outcome JobError (Option Job) × Jobs → Type 0
  RetryAnswer none answer = answer ≡ (err (not_found i), js)
  RetryAnswer (some old) (err e, next) =
      (is_retryable old.status ≡ false) × (e ≡ not_retryable i old.status) × (next ≡ js)
  RetryAnswer (some old) (ok none, next) = ⊥
  RetryAnswer (some old) (ok (some new), next) =
      (is_retryable old.status ≡ true) × Retried i now js next old new

  retry_row-Retried :
      (old : Job)
      → get_job i js ≡ some old
      → Retried i now js
          (js ++ retry_row (next_id js) now old ∷ [])
          old
          (retry_row (next_id js) now old)
  retry_row-Retried old g =
      let new = retry_row (next_id js) now old in
      let fresh = next_id-IsFresh js in
      let vacant = get_job_fresh (next_id js) js fresh in
      record {
        unused = λ j e. cc (vacant, e);
        is_queued_again = refl;
        one_more = refl;
        no_log = refl;
        nothing_saved = refl;
        times = (refl, refl);
        same_work = (refl, refl);
        same_file = (refl, refl);
        same_fingerprint = (refl, refl);
        stored = stored_row now js old;
        old_kept = ground (arith, vacant, g, get_job-append i js new fresh);
        others = λ k ne. ground (arith, ne, get_job-append k js new fresh);
      }

  RetryAnswer-get_job :
      (o : Option Job)
      → get_job i js ≡ o
      → retry_source i js
        ≡ elim o [ none ↦ none | some r ↦ (if is_retryable r.status then some r else none) ]
      → RetryAnswer o (retry_job i now js)
  RetryAnswer-get_job none g e = retry_job-missing i now js e g
  RetryAnswer-get_job (some r) g e = elim (Bool-cases (is_retryable r.status)) [
    | inl t ↦ rw (retry_job-source i now js {r = r} (e ∙ rw t refl)) (t, retry_row-Retried r g)
    | inr t ↦ rw (retry_job-refused i now js {r = r} (e ∙ rw t refl) g) (t, refl, refl)
  ]

-- What a retry answers: `not_found` without a row; a refusal that names the status unless the row
-- failed, was skipped or was cancelled; and otherwise a new row, under an identifier that no row
-- had, that is queued with one attempt more, a clean log and nothing saved, for the same work on
-- the same file as it was then. The errors leave the table as it is, and the new row leaves the row
-- that was retried and every other as it was.
pub retry_job_answer :
    (i now : ℕ) (js : Jobs)
    → HasUniqueIds js
    → RetryAnswer i now js (get_job i js) (retry_job i now js)
retry_job_answer i now js u =
    RetryAnswer-get_job i now js (get_job i js) refl (retry_source-eq i js u)
