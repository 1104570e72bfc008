-- ===== src/Store/Jobs/Rows.antt =====
-- The rows of the `jobs` table: identifiers, look-up by identifier, and the identifiers that a
-- statement keeps.
use muxprune.Base.{
  ℕ, ◌<◌, ◌≡◌, ◌≢◌, refl, Bool, Option, none, some, [], ◌∷◌, ◌++◌, arith, ◌==◌, if◌then◌else◌,
  Bool-cases, keep_if, find_first, All, inl, inr,
}
use muxprune.Store.Jobs.{Job, Jobs, max_id, next_id, update_where, get_job, has_id}

-- No row has the identifier.
abbrev pub IsFresh : ℕ → Jobs → Type 0
IsFresh i js = All (λ j. j.id ≢ i) js

-- No two rows share an identifier, as the primary key demands.
abbrev pub HasUniqueIds : Jobs → Type 0
HasUniqueIds [] = Unit
HasUniqueIds (j ∷ js) = IsFresh j.id js × HasUniqueIds js

abbrev pub map_row : (Job → Job) → Option Job → Option Job
map_row f none = none
map_row f (some j) = some (f j)

-- Look-up after an update that keeps identifiers is the update of what look-up finds.
pub get_job-update_where :
    (p : Job → Bool) (f : Job → Job)
    → ((j : Job) → (f j).id ≡ j.id)
    → (i : ℕ) (js : Jobs)
    → get_job i (update_where p f js) ≡ map_row (λ j. if p j then f j else j) (get_job i js)
unfolding get_job find_first update_where
get_job-update_where p f same i [] = refl
get_job-update_where p f same i (j ∷ js) =
    ground (arith, same j, get_job-update_where p f same i js)

pub IsFresh-update_where :
    (p : Job → Bool) (f : Job → Job)
    → ((j : Job) → (f j).id ≡ j.id)
    → (i : ℕ) (js : Jobs) → IsFresh i js
    → IsFresh i (update_where p f js)
unfolding update_where
IsFresh-update_where p f same i [] h = tt
IsFresh-update_where p f same i (j ∷ js) h = (
  elim (Bool-cases (p j)) [ inl e ↦ rw e (rw (same j) h.0) | inr e ↦ rw e h.0 ],
  IsFresh-update_where p f same i js h.1,
)

pub HasUniqueIds-update_where :
    (p : Job → Bool) (f : Job → Job)
    → ((j : Job) → (f j).id ≡ j.id)
    → (js : Jobs) → HasUniqueIds js
    → HasUniqueIds (update_where p f js)
unfolding update_where
HasUniqueIds-update_where p f same [] h = tt
HasUniqueIds-update_where p f same (j ∷ js) h = (
  elim (Bool-cases (p j)) [
    | inl e ↦ rw e (rw (same j) (IsFresh-update_where p f same j.id js h.0))
    | inr e ↦ rw e (IsFresh-update_where p f same j.id js h.0)
  ],
  HasUniqueIds-update_where p f same js h.1,
)

pub IsFresh-keep_if : (p : Job → Bool) (i : ℕ) (js : Jobs) → IsFresh i js → IsFresh i (keep_if p js)
unfolding keep_if
IsFresh-keep_if p i [] h = tt
IsFresh-keep_if p i (j ∷ js) h = elim (Bool-cases (p j)) [
  | inl e ↦ rw e (h.0, IsFresh-keep_if p i js h.1)
  | inr e ↦ rw e (IsFresh-keep_if p i js h.1)
]

pub HasUniqueIds-keep_if :
    (p : Job → Bool) (js : Jobs) → HasUniqueIds js → HasUniqueIds (keep_if p js)
unfolding keep_if
HasUniqueIds-keep_if p [] h = tt
HasUniqueIds-keep_if p (j ∷ js) h = elim (Bool-cases (p j)) [
  | inl e ↦ rw e (IsFresh-keep_if p j.id js h.0, HasUniqueIds-keep_if p js h.1)
  | inr e ↦ rw e (HasUniqueIds-keep_if p js h.1)
]

-- What lies above every identifier in use is fresh.
pub IsFresh-of_max_id : (i : ℕ) (js : Jobs) → max_id js < i → IsFresh i js
unfolding max_id
IsFresh-of_max_id i [] h = tt
IsFresh-of_max_id i (j ∷ js) h = (omega arith, IsFresh-of_max_id i js (omega arith))

pub next_id-IsFresh : (js : Jobs) → IsFresh (next_id js) js
next_id-IsFresh js = IsFresh-of_max_id (next_id js) js (omega arith)

IsFresh-append :
    (i : ℕ) (js : Jobs) (row : Job) → IsFresh i js → row.id ≢ i → IsFresh i (js ++ row ∷ [])
IsFresh-append i [] row h ne = (ne, tt)
IsFresh-append i (j ∷ js) row h ne = (h.0, IsFresh-append i js row h.1 ne)

pub HasUniqueIds-append :
    (js : Jobs) (row : Job) → HasUniqueIds js → IsFresh row.id js → HasUniqueIds (js ++ row ∷ [])
HasUniqueIds-append [] row h f = (tt, tt)
HasUniqueIds-append (j ∷ js) row h f =
    (IsFresh-append j.id js row h.0 (λ e. f.0 (omega arith)), HasUniqueIds-append js row h.1 f.1)

-- An update of one row changes no other look-up.
pub get_job-others :
    (k : ℕ) (f : Job → Job)
    → ((j : Job) → (f j).id ≡ j.id)
    → (i : ℕ) (js : Jobs) → i ≢ k
    → get_job i (update_where (has_id k) f js) ≡ get_job i js
unfolding get_job find_first update_where
get_job-others k f same i [] ne = refl
get_job-others k f same i (j ∷ js) ne = ground (arith, same j, get_job-others k f same i js ne)

-- A fresh identifier is looked up in vain.
pub get_job_fresh : (i : ℕ) (js : Jobs) → IsFresh i js → get_job i js ≡ none
unfolding get_job find_first
get_job_fresh i [] h = refl
get_job_fresh i (j ∷ js) h = ground (arith, h.0, get_job_fresh i js h.1)

-- An insertion under a fresh identifier is found there, and changes no other look-up.
pub get_job-append :
    (i : ℕ) (js : Jobs) (row : Job)
    → IsFresh row.id js
    → get_job i (js ++ row ∷ []) ≡ (if row.id == i then some row else get_job i js)
unfolding get_job find_first
get_job-append i [] row f = refl
get_job-append i (j ∷ js) row f = ground (arith, f.0, get_job-append i js row f.1)

-- What look-up finds has the identifier.
pub get_job-id : (i : ℕ) (js : Jobs) {r : Job} → get_job i js ≡ some r → r.id ≡ i
unfolding get_job find_first
get_job-id i [] h = cc
get_job-id i (j ∷ js) {r} h = ground (arith, get_job-id i js {r = r})

-- What look-up finds after a deletion was found before it.
pub get_job-keep_if :
    (p : Job → Bool) (i : ℕ) (js : Jobs) {r : Job}
    → HasUniqueIds js
    → get_job i (keep_if p js) ≡ some r
    → get_job i js ≡ some r
unfolding get_job find_first keep_if
get_job-keep_if p i [] u h = h
get_job-keep_if p i (j ∷ js) {r} u h = ground (
  arith,
  get_job-keep_if p i js {r = r} u.1,
  get_job_fresh j.id (keep_if p js) (IsFresh-keep_if p j.id js u.0),
)
