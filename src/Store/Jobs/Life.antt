-- ===== src/Store/Jobs/Life.antt =====
-- Every statement on the jobs as a step of the table, and the identifiers that all steps keep.
use mathlib.Core.Path.{subst}
use muxprune.Base.{sym, ℕ, ◌≡◌, refl, Option, none, some, [], ◌∷◌, ◌++◌, Text, ℤ, inl, inr}
use muxprune.Store.Jobs.{
  Job, Jobs, Status, has_id, NewJob, next_id, start_job, claim_row, claim_next_job, finish_job,
  cancel_job, retry_row, retry_job, delete_job, fail_interrupted, create_job,
}
use muxprune.Store.Jobs.Retry.{retry_job-rows}
use muxprune.Store.Jobs.Rows.{
  HasUniqueIds, HasUniqueIds-update_where, HasUniqueIds-keep_if, HasUniqueIds-append,
  next_id-IsFresh,
}

-- One statement on the table, whatever its arguments.
pub data TableStep (js : Jobs) : Jobs → Type 0 where
  create : (now : ℕ) (n : NewJob) → TableStep js (create_job now n js).1
  claim : TableStep js (claim_next_job js).0
  finish :
      (i : ℕ) (status : Status) (log : Text) (saved : ℤ) (now : ℕ)
      → TableStep js (finish_job i status log saved now js)
  cancel : (i now : ℕ) → TableStep js (cancel_job i now js).1
  retry : (i now : ℕ) → TableStep js (retry_job i now js).1
  delete : (i : ℕ) → TableStep js (delete_job i js).1
  fail_all : (now : ℕ) → TableStep js (fail_interrupted now js).1

claim_row-HasUniqueIds :
    (js : Jobs) (o : Option ℕ) → HasUniqueIds js → HasUniqueIds (claim_row js o).0
claim_row-HasUniqueIds js none u = u
claim_row-HasUniqueIds js (some i) u =
    HasUniqueIds-update_where (has_id i) start_job (λ j. refl) js u

append-HasUniqueIds :
    (js : Jobs) (row : Job) → row.id ≡ next_id js → HasUniqueIds js → HasUniqueIds (js ++ row ∷ [])
append-HasUniqueIds js row e u = HasUniqueIds-append js row u (rw e (next_id-IsFresh js))

retry_job-HasUniqueIds :
    (i now : ℕ) (js : Jobs) → HasUniqueIds js → HasUniqueIds (retry_job i now js).1
retry_job-HasUniqueIds i now js u = elim (retry_job-rows i now js) [
  | inl e ↦ subst HasUniqueIds (sym e) u
  | inr (r, e) ↦
      subst HasUniqueIds (sym e) (append-HasUniqueIds js (retry_row (next_id js) now r) refl u)
]

pub TableStep-HasUniqueIds : {js ks : Jobs} → TableStep js ks → HasUniqueIds js → HasUniqueIds ks
unfolding create_job claim_next_job finish_job cancel_job delete_job fail_interrupted
TableStep-HasUniqueIds {js} (create now n) u = append-HasUniqueIds js _ refl u
TableStep-HasUniqueIds {js} claim u = claim_row-HasUniqueIds js _ u
TableStep-HasUniqueIds {js} (finish i status log saved now) u =
    HasUniqueIds-update_where _ _ (λ j. refl) js u
TableStep-HasUniqueIds {js} (cancel i now) u = HasUniqueIds-update_where _ _ (λ j. refl) js u
TableStep-HasUniqueIds {js} (retry i now) u = retry_job-HasUniqueIds i now js u
TableStep-HasUniqueIds {js} (delete i) u = HasUniqueIds-keep_if _ js u
TableStep-HasUniqueIds {js} (fail_all now) u = HasUniqueIds-update_where _ _ (λ j. refl) js u
