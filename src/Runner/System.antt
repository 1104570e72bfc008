-- ===== src/Runner/System.antt =====
-- The jobs table and the workers together: what `worker` and `run` of internal/jobs/runner.go do to
-- the table, among the requests of the API, in any order.
use muxprune.Base.{
  ℕ, ◌≡◌, ◌≢◌, ◌∙◌, refl, Bool, true, not, Option, none, some, [], ◌∷◌, arith, ◌==◌, Float,
  Bool-cases, inl, inr, keep_if, All, find_first,
}
use muxprune.Engine.Io.{Fs}
use muxprune.Store.Jobs.{Job, Jobs, running, has_id, claim_next_job, get_job, fail_interrupted}
use muxprune.Store.Jobs.Rows.{HasUniqueIds}
use muxprune.Store.Jobs.Claim.{Claimed, claim_next_job-Claimed}
use muxprune.Store.Jobs.Life.{TableStep, claim, finish, fail_all, TableStep-HasUniqueIds}
use muxprune.Store.Jobs.Moves.{
  MovesTo, is_request, IsRunningRow, request-MovesTo, request-IsRunningRow, claim_next_job-MovesTo,
  fail_interrupted-MovesTo,
}
use muxprune.Runner.{Deps}
use muxprune.Runner.Execute.{run}
use muxprune.Runner.Reports.{run-RunStored}

-- The table, and the jobs that the workers have claimed and not yet ended.
pub record System : Type 0 where
  pub jobs : Jobs
  pub held : Jobs

abbrev pub hold : Option Job → Jobs → Jobs
hold none held = held
hold (some j) held = j ∷ held

abbrev pub release : ℕ → Jobs → Jobs
release i held = keep_if (λ j. not (has_id i j)) held

-- A request; a claim by a worker; the end of a run, by whatever operation, with `unstored` where the
-- database fails `FinishJob`, whose error `run` prints and drops; and a new process, whose `Start`
-- fails what an old one left.
pub data SystemStep {D : Type 0} (f : Float D) (s : System) : System → Type 0 where
  request :
      {ks : Jobs} (st : TableStep s.jobs ks)
      → is_request st ≡ true
      → SystemStep f s (record { jobs = ks; held = s.held })
  take :
      SystemStep f s
        (record { jobs = (claim_next_job s.jobs).0; held = hold (claim_next_job s.jobs).1 s.held })
  end_run :
      (deps : Deps) (was_cancelled killed : Bool) (now : ℕ) (j : Job) (fs : Fs)
      → get_job j.id s.held ≡ some j
      → SystemStep f s (record {
        jobs = (run f deps was_cancelled killed now j (fs, s.jobs)).1;
        held = release j.id s.held;
      })
  unstored : (i : ℕ) → SystemStep f s (record { jobs = s.jobs; held = release i s.held })
  restart :
      (now : ℕ) → SystemStep f s (record { jobs = (fail_interrupted now s.jobs).1; held = [] })

pub data SystemReachable {D : Type 0} (f : Float D) : System → Type 0 where
  installed : SystemReachable f (record { jobs = []; held = [] })
  afterwards : {s t : System} → SystemReachable f s → SystemStep f s t → SystemReachable f t

-- Every job that a worker holds runs in the table.
pub record IsSound (s : System) : Type 0 where
  pub unique : HasUniqueIds s.jobs
  pub all_run : All (λ j. IsRunningRow j.id s.jobs) s.held

module _ (js ks : Jobs) where
  held_run :
      (held : Jobs)
      → ((i : ℕ) → IsRunningRow i js → IsRunningRow i ks)
      → All (λ j. IsRunningRow j.id js) held
      → All (λ j. IsRunningRow j.id ks) held
  held_run [] h a = tt
  held_run (j ∷ held) h a = (h j.id a.0, held_run held h a.1)

  release-IsRunningRow :
      (k : ℕ) (held : Jobs)
      → ((i : ℕ) → i ≢ k → IsRunningRow i js → IsRunningRow i ks)
      → All (λ j. IsRunningRow j.id js) held
      → All (λ j. IsRunningRow j.id ks) (release k held)
  unfolding keep_if
  release-IsRunningRow k [] h a = tt
  release-IsRunningRow k (j ∷ held) h a = elim (Bool-cases (j.id == k)) [
    | inl e ↦ rw e (release-IsRunningRow k held h a.1)
    | inr e ↦ rw e (h j.id (ground arith) a.0, release-IsRunningRow k held h a.1)
  ]

held_row :
    (i : ℕ) (js held : Jobs) (j : Job)
    → All (λ h. IsRunningRow h.id js) held
    → get_job i held ≡ some j
    → IsRunningRow j.id js
unfolding get_job find_first
held_row i js [] j a e = cc
held_row i js (h ∷ held) j a e = elim (Bool-cases (h.id == i)) [
  | inl t ↦ ground (arith, a.0)
  | inr t ↦ held_row i js held j a.1 (rw t at e)
]

hold-IsRunningRow :
    (js ks : Jobs) (o : Option Job) (held : Jobs)
    → Claimed js ks o
    → All (λ j. IsRunningRow j.id js) held
    → All (λ j. IsRunningRow j.id ks) (hold o held)
hold-IsRunningRow js ks none held (_, e) a = rw e a
hold-IsRunningRow js ks (some c) held ((r, g, q), _, others) a = (
  (record r { status = running }, others c.id ∙ rw g (ground arith), refl),
  held_run js ks held keep a,
)
  where
    keep : (i : ℕ) → IsRunningRow i js → IsRunningRow i ks
    keep i (r', g', e) = elim (Bool-cases (i == c.id)) [
      | inl t ↦ (record r' { status = running }, others i ∙ rw (t, g') refl, refl)
      | inr t ↦ (r', others i ∙ rw (t, g') refl, e)
    ]

module _ {D : Type 0} (f : Float D) where
  SystemStep-IsSound : {s t : System} → SystemStep f s t → IsSound s → IsSound t
  unfolding run
  SystemStep-IsSound {s} (request {ks} st q) h = record {
    unique = TableStep-HasUniqueIds st h.unique;
    all_run = held_run s.jobs ks s.held (λ i. request-IsRunningRow i st q) h.all_run;
  }
  SystemStep-IsSound {s} take h = record {
    unique = TableStep-HasUniqueIds claim h.unique;
    all_run =
        hold-IsRunningRow s.jobs (claim_next_job s.jobs).0 (claim_next_job s.jobs).1 s.held
          (claim_next_job-Claimed s.jobs h.unique) h.all_run;
  }
  SystemStep-IsSound {s} (end_run deps c k now j fs e) h = record {
    unique = TableStep-HasUniqueIds (finish j.id _ _ _ now) h.unique;
    all_run =
        (let (row, g, _) = held_row j.id s.jobs s.held j h.all_run e in
          let (_, _, _, others) = run-RunStored f deps c k now j row fs s.jobs g in
          release-IsRunningRow s.jobs (run f deps c k now j (fs, s.jobs)).1 j.id s.held
            (λ i ne (r, g', q). (r, others i ne ∙ g', q)) h.all_run);
  }
  SystemStep-IsSound {s} (unstored i) h = record {
    unique = h.unique;
    all_run = release-IsRunningRow s.jobs s.jobs i s.held (λ k ne r. r) h.all_run;
  }
  SystemStep-IsSound {s} (restart now) h = record {
    unique = TableStep-HasUniqueIds (fail_all now) h.unique;
    all_run = tt;
  }

  SystemReachable-IsSound : {s : System} → SystemReachable f s → IsSound s
  SystemReachable-IsSound installed = record { unique = tt; all_run = tt }
  SystemReachable-IsSound (afterwards r st) = SystemStep-IsSound st (SystemReachable-IsSound r)

  end_run-MovesTo :
      (deps : Deps) (c k : Bool) (now : ℕ) (j : Job) (fs : Fs) (js : Jobs) (i : ℕ) (r q : Job)
      → IsRunningRow j.id js
      → get_job i js ≡ some r
      → get_job i (run f deps c k now j (fs, js)).1 ≡ some q
      → MovesTo r.status q.status
  end_run-MovesTo deps c k now j fs js i r q (row, g, e) gr gq =
      let (after, stored, s, others) = run-RunStored f deps c k now j row fs js g in
      let over = s.over in
      elim (Bool-cases (i == j.id)) [ inl t ↦ ground arith | inr t ↦ ground (arith, others i) ]

  -- Whatever requests, workers, failed writes and restarts have done before, in any order, the next
  -- step moves the status of a job that keeps its row along the edges of the state machine only: a
  -- queued job is started or cancelled, a running job ends, and what has ended keeps its status.
  pub SystemStep-MovesTo :
      {s t : System} (i : ℕ) (r q : Job)
      → SystemReachable f s
      → SystemStep f s t
      → get_job i s.jobs ≡ some r
      → get_job i t.jobs ≡ some q
      → MovesTo r.status q.status
  SystemStep-MovesTo {s} i r q h (request st e) g g' =
      request-MovesTo i r q (SystemReachable-IsSound h).unique st e g g'
  SystemStep-MovesTo {s} i r q h take g g' =
      claim_next_job-MovesTo i s.jobs r q (SystemReachable-IsSound h).unique g g'
  SystemStep-MovesTo {s} i r q h (end_run deps c k now j fs e) g g' =
      end_run-MovesTo deps c k now j fs s.jobs i r q
        (held_row j.id s.jobs s.held j (SystemReachable-IsSound h).all_run e) g g'
  SystemStep-MovesTo {s} i r q h (unstored k) g g' = ground arith
  SystemStep-MovesTo {s} i r q h (restart now) g g' = fail_interrupted-MovesTo i now s.jobs r q g g'

  -- A job that a worker has claimed and not yet ended runs in the table, whatever requests, other
  -- workers and failed writes come meanwhile.
  pub SystemReachable-IsRunningRow :
      {s : System} (i : ℕ) (j : Job)
      → SystemReachable f s
      → get_job i s.held ≡ some j
      → IsRunningRow j.id s.jobs
  SystemReachable-IsRunningRow {s} i j h e =
      held_row i s.jobs s.held j (SystemReachable-IsSound h).all_run e
