-- ===== src/Store/Jobs/Moves.antt =====
-- What the statements on the jobs other than `FinishJob` do to the status of a row.
use muxprune.Base.{
  ℕ, ◌≡◌, ◌⊎◌, ◌∙◌, refl, Bool, true, false, Option, none, some, [], ◌∷◌, ◌++◌, arith, Bool-cases,
  inl, inr, find_first, keep_if,
}
use muxprune.Store.Jobs.{
  Job, Jobs, Status, queued, running, cancelled, is_active, has_id, update_where, next_id,
  start_job, oldest_queued, claim_row, claim_next_job, cancel_job, get_job, retry_row, retry_job,
  delete_job, fail_interrupted, create_job,
}
use muxprune.Store.Jobs.Claim.{IsQueuedRow, oldest_queued-IsQueuedRow}
use muxprune.Store.Jobs.Retry.{retry_job-rows}
use muxprune.Store.Jobs.Life.{TableStep, create, claim, finish, cancel, retry, delete, fail_all}
use muxprune.Store.Jobs.Rows.{
  HasUniqueIds, IsFresh, get_job-keep_if, get_job-id, get_job_fresh, get_job-update_where,
  get_job-append, next_id-IsFresh,
}

-- The edges of the state machine of a job.
abbrev pub MovesTo : Status → Status → Type 0
MovesTo s t =
    (t ≡ s)
    ⊎ ((s ≡ queued) × (t ≡ running))
    ⊎ ((s ≡ queued) × (t ≡ cancelled))
    ⊎ ((s ≡ running) × (is_active t ≡ false))

module _ (p : Job → Bool) (f : Job → Job) (same : (j : Job) → (f j).id ≡ j.id) where
  update_where-MovesTo :
      (i : ℕ) (js : Jobs) (r s : Job)
      → (get_job i js ≡ some r → p r ≡ true → MovesTo r.status (f r).status)
      → get_job i js ≡ some r
      → get_job i (update_where p f js) ≡ some s
      → MovesTo r.status s.status
  update_where-MovesTo i js r s move g h =
      ground (arith, get_job-update_where p f same i js, move g)

append-MovesTo :
    (i : ℕ) (js : Jobs) (row r s : Job)
    → IsFresh row.id js
    → get_job i js ≡ some r
    → get_job i (js ++ row ∷ []) ≡ some s
    → MovesTo r.status s.status
append-MovesTo i js row r s f g h =
    ground (arith, get_job-append i js row f, get_job_fresh row.id js f)

retry_job-MovesTo :
    (i k now : ℕ) (js : Jobs) (r s : Job)
    → get_job k js ≡ some r
    → get_job k (retry_job i now js).1 ≡ some s
    → MovesTo r.status s.status
retry_job-MovesTo i k now js r s g h = elim (retry_job-rows i now js) [
  | inl e ↦ ground arith
  | inr (q, e) ↦
      append-MovesTo k js (retry_row (next_id js) now q) r s (next_id-IsFresh js) g (rw e at h)
]

claim_row-MovesTo :
    (i : ℕ) (js : Jobs) (o : Option ℕ) (r s : Job)
    → ((k : ℕ) → o ≡ some k → IsQueuedRow k js)
    → get_job i js ≡ some r
    → get_job i (claim_row js o).0 ≡ some s
    → MovesTo r.status s.status
claim_row-MovesTo i js none r s q g h = ground arith
claim_row-MovesTo i js (some k) r s q g h =
    let (c, gc, e) = q k refl in
    update_where-MovesTo (has_id k) start_job (λ j. refl) i js r s
      (λ _ t. ground (arith, get_job-id i js g)) g h

-- The statements that the API and the monitor give while the workers run.
abbrev pub is_request : {js ks : Jobs} → TableStep js ks → Bool
is_request (create now n) = true
is_request (cancel i now) = true
is_request (retry i now) = true
is_request (delete i) = true
is_request _ = false

pub request-MovesTo :
    {js ks : Jobs} (i : ℕ) (r s : Job)
    → HasUniqueIds js
    → (st : TableStep js ks) → is_request st ≡ true
    → get_job i js ≡ some r
    → get_job i ks ≡ some s
    → MovesTo r.status s.status
unfolding create_job cancel_job delete_job
request-MovesTo {js} i r s u (create now n) q g h =
    append-MovesTo i js _ r s (next_id-IsFresh js) g h
request-MovesTo {js} i r s u claim q g h = cc
request-MovesTo {js} i r s u (finish k status log saved now) q g h = cc
request-MovesTo {js} i r s u (cancel k now) q g h =
    update_where-MovesTo _ _ (λ j. refl) i js r s (λ _ b. ground arith) g h
request-MovesTo {js} i r s u (retry k now) q g h = retry_job-MovesTo k i now js r s g h
request-MovesTo {js} i r s u (delete k) q g h = ground (arith, get_job-keep_if _ i js {r = s} u h)
request-MovesTo {js} i r s u (fail_all now) q g h = cc

pub claim_next_job-MovesTo :
    (i : ℕ) (js : Jobs) (r s : Job)
    → HasUniqueIds js
    → get_job i js ≡ some r
    → get_job i (claim_next_job js).0 ≡ some s
    → MovesTo r.status s.status
unfolding claim_next_job
claim_next_job-MovesTo i js r s u g h =
    claim_row-MovesTo i js (oldest_queued js) r s (λ k. oldest_queued-IsQueuedRow js k u) g h

pub fail_interrupted-MovesTo :
    (i now : ℕ) (js : Jobs) (r s : Job)
    → get_job i js ≡ some r
    → get_job i (fail_interrupted now js).1 ≡ some s
    → MovesTo r.status s.status
unfolding fail_interrupted
fail_interrupted-MovesTo i now js r s g h =
    update_where-MovesTo _ _ (λ j. refl) i js r s (λ _ b. ground arith) g h

-- A row with the identifier is there and runs.
abbrev pub IsRunningRow : ℕ → Jobs → Type 0
IsRunningRow i js = (r : Job) × (get_job i js ≡ some r) × (r.status ≡ running)

module _ (p : Job → Bool) (f : Job → Job) (same : (j : Job) → (f j).id ≡ j.id) where
  pub update_where-IsRunningRow :
      (i : ℕ) (js : Jobs)
      → ((j : Job) → j.id ≡ i → j.status ≡ running → p j ≡ true → (f j).status ≡ running)
      → IsRunningRow i js
      → IsRunningRow i (update_where p f js)
  update_where-IsRunningRow i js keep (r, g, e) = elim (Bool-cases (p r)) [
    | inl t ↦
        (f r, get_job-update_where p f same i js ∙ rw g (rw t refl), keep r (get_job-id i js g) e t)
    | inr t ↦ (r, get_job-update_where p f same i js ∙ rw g (rw t refl), e)
  ]

append-IsRunningRow :
    (i : ℕ) (js : Jobs) (row : Job)
    → IsFresh row.id js
    → IsRunningRow i js
    → IsRunningRow i (js ++ row ∷ [])
append-IsRunningRow i js row f (r, g, e) =
    (r, ground (arith, g, get_job-append i js row f, get_job_fresh row.id js f), e)

retry_job-IsRunningRow :
    (i k now : ℕ) (js : Jobs) → IsRunningRow k js → IsRunningRow k (retry_job i now js).1
retry_job-IsRunningRow i k now js h = elim (retry_job-rows i now js) [
  | inl e ↦ rw e h
  | inr (q, e) ↦
      rw e (append-IsRunningRow k js (retry_row (next_id js) now q) (next_id-IsFresh js) h)
]

get_job-kept :
    (p : Job → Bool) (i : ℕ) (js : Jobs) (r : Job)
    → get_job i js ≡ some r
    → p r ≡ true
    → get_job i (keep_if p js) ≡ some r
unfolding get_job find_first keep_if
get_job-kept p i [] r g h = cc
get_job-kept p i (j ∷ js) r g h = ground (arith, get_job-kept p i js r)

-- No request takes a running job away, or changes its status.
pub request-IsRunningRow :
    {js ks : Jobs} (i : ℕ) (st : TableStep js ks)
    → is_request st ≡ true
    → IsRunningRow i js
    → IsRunningRow i ks
unfolding create_job cancel_job delete_job
request-IsRunningRow {js} i (create now n) q h = append-IsRunningRow i js _ (next_id-IsFresh js) h
request-IsRunningRow {js} i claim q h = cc
request-IsRunningRow {js} i (finish k status log saved now) q h = cc
request-IsRunningRow {js} i (cancel k now) q h =
    update_where-IsRunningRow _ _ (λ j. refl) i js (λ j _ e t. ground arith) h
request-IsRunningRow {js} i (retry k now) q h = retry_job-IsRunningRow k i now js h
request-IsRunningRow {js} i (delete k) q (r, g, e) = (r, get_job-kept _ i js r g (ground arith), e)
request-IsRunningRow {js} i (fail_all now) q h = cc
