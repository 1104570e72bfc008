-- ===== src/Store/Jobs/Claim.antt =====
-- `ClaimNextJob`: which row it takes, and what it leaves alone.
use muxprune.Base.{
  ℕ, ◌≤◌, ◌≡◌, ◌≢◌, ◌∙◌, ◌⊎◌, refl, true, false, Option, none, some, [], ◌∷◌, arith, ltb, ◌==◌,
  ==_self, if◌then◌else◌, Bool-cases, Option-cases, find_first, All, inl, inr,
}
use muxprune.Store.Jobs.{
  Job, Jobs, Status, queued, is_queued, has_id, update_where, smaller, oldest_queued, claim_row,
  claimed_view, start_job, claim_next_job, get_job,
}
use muxprune.Store.Jobs.Rows.{
  IsFresh, HasUniqueIds, map_row, get_job-id, get_job_fresh, get_job-update_where,
}

-- `some i` only where a row with that identifier is queued and none queued has a smaller one;
-- `none` only where no row is queued.
abbrev pub IsOldest : Jobs → Option ℕ → Type 0
IsOldest js none = All (λ j. j.status ≢ queued) js
IsOldest js (some i) = All (λ j. j.status ≡ queued → i ≤ j.id) js

IsOldest-weaken : (js : Jobs) (i k : ℕ) → i ≤ k → IsOldest js (some k) → IsOldest js (some i)
IsOldest-weaken [] i k h o = tt
IsOldest-weaken (j ∷ js) i k h o = (λ q. omega (arith, o.0 q), IsOldest-weaken js i k h o.1)

IsOldest-of_none : (js : Jobs) (i : ℕ) → IsOldest js none → IsOldest js (some i)
IsOldest-of_none [] i o = tt
IsOldest-of_none (j ∷ js) i o = (λ q. absurd (o.0 q), IsOldest-of_none js i o.1)

smaller-IsOldest :
    (js : Jobs) (j : Job) (o : Option ℕ) → IsOldest js o → IsOldest (j ∷ js) (smaller j.id o)
smaller-IsOldest js j none h = (λ q. omega arith, IsOldest-of_none js j.id h)
smaller-IsOldest js j (some k) h = elim (Bool-cases (ltb j.id k)) [
  | inl e ↦ rw e (λ q. omega arith, IsOldest-weaken js j.id k (ground arith) h)
  | inr e ↦ rw e (λ q. ground arith, h)
]

pub oldest_queued-IsOldest : (js : Jobs) → IsOldest js (oldest_queued js)
unfolding oldest_queued
oldest_queued-IsOldest [] = tt
oldest_queued-IsOldest (j ∷ js) = elim (Bool-cases (is_queued j.status)) [
  | inl e ↦ rw e (smaller-IsOldest js j (oldest_queued js) (oldest_queued-IsOldest js))
  | inr e ↦ rw e (skip (oldest_queued js) e (oldest_queued-IsOldest js))
]
  where
    skip : (o : Option ℕ) → is_queued j.status ≡ false → IsOldest js o → IsOldest (j ∷ js) o
    skip none e h = (λ q. ground arith, h)
    skip (some i) e h = (λ q. ground arith, h)

-- The row under the identifier is there and queued.
abbrev pub IsQueuedRow : ℕ → Jobs → Type 0
IsQueuedRow i js = (j : Job) × (get_job i js ≡ some j) × (j.status ≡ queued)

get_job_skip :
    (k : ℕ) (j : Job) (js : Jobs) {r : Job}
    → IsFresh j.id js
    → get_job k js ≡ some r
    → get_job k (j ∷ js) ≡ some r
unfolding get_job find_first
get_job_skip k j js f h = ground (arith, get_job_fresh j.id js f)

skip-IsQueuedRow :
    (k : ℕ) (j : Job) (js : Jobs) → IsFresh j.id js → IsQueuedRow k js → IsQueuedRow k (j ∷ js)
skip-IsQueuedRow k j js f (r, g, q) = (r, get_job_skip k j js f g, q)

head-IsQueuedRow : (j : Job) (js : Jobs) → j.status ≡ queued → IsQueuedRow j.id (j ∷ js)
unfolding get_job find_first
head-IsQueuedRow j js q = (j, rw (==_self j.id), q)

is_queued→eq : (s : Status) → is_queued s ≡ true → s ≡ queued
is_queued→eq s h = ground arith

smaller-IsQueuedRow :
    (j : Job) (js : Jobs) (o : Option ℕ) (i : ℕ)
    → IsFresh j.id js
    → j.status ≡ queued
    → ((k : ℕ) → o ≡ some k → IsQueuedRow k js)
    → smaller j.id o ≡ some i
    → IsQueuedRow i (j ∷ js)
smaller-IsQueuedRow j js none i f q ih e =
    let e' : j.id ≡ i = ground arith in rw (← e') (head-IsQueuedRow j js q)
smaller-IsQueuedRow j js (some k) i f q ih e = elim (Bool-cases (ltb j.id k)) [
  | inl t ↦ (let e' : j.id ≡ i = ground arith in rw (← e') (head-IsQueuedRow j js q))
  | inr t ↦ (let e' : k ≡ i = ground arith in rw (← e') (skip-IsQueuedRow k j js f (ih k refl)))
]

pub oldest_queued-IsQueuedRow :
    (js : Jobs) (i : ℕ) → HasUniqueIds js → oldest_queued js ≡ some i → IsQueuedRow i js
unfolding oldest_queued
oldest_queued-IsQueuedRow [] i u e = cc
oldest_queued-IsQueuedRow (j ∷ js) i u e = elim (Bool-cases (is_queued j.status)) [
  | inl t ↦
      smaller-IsQueuedRow j js (oldest_queued js) i u.0 (is_queued→eq j.status t)
        (λ k. oldest_queued-IsQueuedRow js k u.1) (rw t at e)
  | inr t ↦ skip-IsQueuedRow i j js u.0 (oldest_queued-IsQueuedRow js i u.1 (rw t at e))
]

abbrev pub Claimed : Jobs → Jobs → Option Job → Type 0
Claimed js js' none = All (λ j. j.status ≢ queued) js × (js' ≡ js)
Claimed js js' (some c) =
    IsQueuedRow c.id js
    × All (λ j. j.status ≡ queued → c.id ≤ j.id) js
    × ((i : ℕ)
        → get_job i js' ≡ (if i == c.id then map_row start_job (get_job i js) else get_job i js))

-- The row that an identifier names is started, and no other row changes.
start_at :
    (i k : ℕ) (js : Jobs)
    → get_job k (update_where (has_id i) start_job js)
      ≡ (if k == i then map_row start_job (get_job k js) else get_job k js)
start_at i k js =
    get_job-update_where (has_id i) start_job (λ j. refl) k js ∙ same (Option-cases (get_job k js))
  where
    same :
        (get_job k js ≡ none) ⊎ ((r : Job) × (get_job k js ≡ some r))
        → map_row (λ j. if has_id i j then start_job j else j) (get_job k js)
          ≡ (if k == i then map_row start_job (get_job k js) else get_job k js)
    same (inl e) = rw e (ground arith)
    same (inr (r, e)) = rw e (ground (arith, get_job-id k js e))

pub claim_row-some :
    (js : Jobs) (i : ℕ) (r : Job)
    → get_job i js ≡ some r
    → claim_row js (some i) ≡ (update_where (has_id i) start_job js, some (claimed_view r))
unfolding get_job
claim_row-some js i r g = rw g

claim_row-Claimed :
    (js : Jobs) (o : Option ℕ)
    → IsOldest js o
    → ((i : ℕ) → o ≡ some i → IsQueuedRow i js)
    → Claimed js (claim_row js o).0 (claim_row js o).1
claim_row-Claimed js none h q = (h, refl)
claim_row-Claimed js (some i) h q =
    let (r, g, s) = q i refl in
    rw (claim_row-some js i r g) (rw (get_job-id i js g) ((r, g, s), h, λ k. start_at i k js))

-- A claim takes the queued row with the smallest identifier: the row is in the table and queued, no
-- queued row has a smaller identifier, the row becomes `running` and every other look-up is
-- unchanged. It returns nothing only if no row is queued, and then it changes nothing.
pub claim_next_job-Claimed :
    (js : Jobs) → HasUniqueIds js → Claimed js (claim_next_job js).0 (claim_next_job js).1
unfolding claim_next_job
claim_next_job-Claimed js u =
    claim_row-Claimed js (oldest_queued js) (oldest_queued-IsOldest js)
      (λ i. oldest_queued-IsQueuedRow js i u)
