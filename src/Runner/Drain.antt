-- ===== src/Runner/Drain.antt =====
-- The inner loop of `worker`: jobs are claimed and run until none is queued.
use mathlib.Core.Path.{subst}
use muxprune.Base.{
  ℕ, zero, suc, ◌+◌, ◌≤◌, ◌≡◌, ◌⊎◌, refl, Bool, false, Option, none, some, [], ◌∷◌, arith, Float,
  Bool-cases, Option-cases, inl, inr, length, keep_if, find_first, ◌==◌,
}
use muxprune.Engine.Io.{Fs}
use muxprune.Store.Jobs.{
  Job, Jobs, Status, is_queued, has_id, update_where, start_job, oldest_queued, claim_next_job,
  claimed_view, finish_job, get_job, is_active,
}
use muxprune.Store.Jobs.Rows.{IsFresh, HasUniqueIds, HasUniqueIds-update_where}
use muxprune.Store.Jobs.Claim.{
  IsOldest, IsQueuedRow, claim_row-some, oldest_queued-IsOldest, oldest_queued-IsQueuedRow,
}
use muxprune.Runner.{Deps}
use muxprune.Runner.Execute.{run}
use muxprune.Runner.Reports.{settle-execute-IsSettled}

-- How a job ends: whether it was cancelled or killed, and when.
pub record Ending : Type 0 where
  pub was_cancelled : Bool
  pub killed : Bool
  pub now : ℕ

abbrev pub run_claimed :
    {D : Type 0} → Float D → Deps → (Job → Ending) → Option Job → Fs × Jobs → Fs × Jobs
run_claimed f deps ending none (fs, js) = (fs, js)
run_claimed f deps ending (some j) (fs, js) =
    run f deps (ending j).was_cancelled (ending j).killed (ending j).now j (fs, js)

-- One round: a claim, and the run of what it returns.
unfoldable pub work_once : {D : Type 0} → Float D → Deps → (Job → Ending) → Fs × Jobs → Fs × Jobs
unfolding claim_next_job run
work_once f deps ending (fs, js) =
    run_claimed f deps ending (claim_next_job js).1 (fs, (claim_next_job js).0)

-- So many rounds; the loop of one worker, undisturbed, leaves off when a claim returns nothing, and
-- rounds after that change nothing.
unfoldable pub drain : {D : Type 0} → Float D → Deps → (Job → Ending) → ℕ → Fs × Jobs → Fs × Jobs
unfolding work_once
drain f deps ending zero s = s
drain f deps ending (suc n) s = drain f deps ending n (work_once f deps ending s)

abbrev pub queued_count : Jobs → ℕ
queued_count js = length (keep_if (λ j. is_queued j.status) js)

update_where-fresh :
    (i : ℕ) (g : Job → Job) (js : Jobs) → IsFresh i js → update_where (has_id i) g js ≡ js
unfolding update_where
update_where-fresh i g [] u = refl
update_where-fresh i g (j ∷ js) u = ground (arith, u.0, update_where-fresh i g js u.1)

-- Starting the queued row of an identifier leaves one row less in the queue.
start_job-queued_count :
    (i : ℕ) (js : Jobs)
    → HasUniqueIds js
    → IsQueuedRow i js
    → queued_count (update_where (has_id i) start_job js) + 1 ≡ queued_count js
unfolding update_where keep_if get_job find_first
start_job-queued_count i [] u (r, g, q) = cc
start_job-queued_count i (j ∷ js) u (r, g, q) = elim (Bool-cases (j.id == i)) [
  | inl e ↦ ground (arith, update_where-fresh j.id start_job js u.0)
  | inr e ↦
      (let g' : get_job i js ≡ some r = ground arith in
        let ih = start_job-queued_count i js u.1 (r, g', q) in ground (arith, ih))
]

finish_job-queued_count :
    (i : ℕ) (g : Job → Job) (js : Jobs)
    → ((j : Job) → is_queued (g j).status ≡ false)
    → queued_count (update_where (has_id i) g js) ≤ queued_count js
unfolding update_where keep_if
finish_job-queued_count i g [] h = omega arith
finish_job-queued_count i g (j ∷ js) h = ground (arith, h j, finish_job-queued_count i g js h)

not_queued-count : (js : Jobs) → IsOldest js none → queued_count js ≡ 0
unfolding keep_if
not_queued-count [] h = refl
not_queued-count (j ∷ js) h = ground (arith, h.0, not_queued-count js h.1)

over-not_queued : (s : Status) → is_active s ≡ false → is_queued s ≡ false
over-not_queued s h = ground arith

module _ {D : Type 0} (f : Float D) (deps : Deps) (ending : Job → Ending) where
  run_claimed-queued_count :
      (o : Option Job) (fs : Fs) (js : Jobs)
      → queued_count (run_claimed f deps ending o (fs, js)).1 ≤ queued_count js
  unfolding run finish_job
  run_claimed-queued_count none fs js = omega arith
  run_claimed-queued_count (some j) fs js =
      let e = ending j in
      finish_job-queued_count j.id _ js (λ _.
        over-not_queued _ (settle-execute-IsSettled f deps e.was_cancelled e.killed j fs).over)

  run_claimed-HasUniqueIds :
      (o : Option Job) (fs : Fs) (js : Jobs)
      → HasUniqueIds js
      → HasUniqueIds (run_claimed f deps ending o (fs, js)).1
  unfolding run finish_job
  run_claimed-HasUniqueIds none fs js u = u
  run_claimed-HasUniqueIds (some j) fs js u =
      HasUniqueIds-update_where (has_id j.id) _ (λ _. refl) js u

  -- A round keeps identifiers unique and shortens the queue, unless it is empty.
  Shortened : Jobs → Jobs → Type 0
  Shortened js js' =
      HasUniqueIds js'
      × ((queued_count js' + 1 ≤ queued_count js)
          ⊎ ((queued_count js ≡ 0) × (queued_count js' ≡ 0)))

  work_once-Shortened :
      (fs : Fs) (js : Jobs) → HasUniqueIds js → Shortened js (work_once f deps ending (fs, js)).1
  unfolding work_once claim_next_job Shortened
  work_once-Shortened fs js u = elim (Option-cases (oldest_queued js)) [
    | inl e ↦
        (let empty = not_queued-count js (subst (IsOldest js) e (oldest_queued-IsOldest js)) in
          rw e (u, inr (empty, empty)))
    | inr (i, e) ↦
        (let (r, g, q) = oldest_queued-IsQueuedRow js i u e in
          let js' = update_where (has_id i) start_job js in
          rw e (
            rw (claim_row-some js i r g) (
              run_claimed-HasUniqueIds (some (claimed_view r)) fs js'
                  (HasUniqueIds-update_where (has_id i) start_job (λ _. refl) js u),
              inl (
                  omega (
                    arith,
                    start_job-queued_count i js u (r, g, q),
                    run_claimed-queued_count (some (claimed_view r)) fs js',
                  )),
            )))
  ]

  -- A worker that nobody disturbs empties the queue: from a table with unique identifiers, as many
  -- rounds as there are queued jobs leave none queued, whatever becomes of the jobs.
  pub drain-queued_count :
      (n : ℕ) (fs : Fs) (js : Jobs)
      → HasUniqueIds js
      → queued_count js ≤ n
      → queued_count (drain f deps ending n (fs, js)).1 ≡ 0
  unfolding drain Shortened
  drain-queued_count zero fs js u l = omega (arith, l)
  drain-queued_count (suc n) fs js u l =
      let next = work_once f deps ending (fs, js) in
      let (u', s) = work_once-Shortened fs js u in
      drain-queued_count n next.0 next.1 u'
        (elim s [ inl h ↦ omega (arith, h, l) | inr (_, h) ↦ omega (arith, h) ])
