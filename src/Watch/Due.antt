-- ===== src/Watch/Due.antt =====
-- The scans that a tick of the monitor of internal/watch/monitor.go finds in the queue or puts there.
use mathlib.Core.Path.{subst}
use muxprune.Base.{
  ℕ, ◌≡◌, ◌⊎◌, refl, sym, ap, Bool, true, not, ◌&&◌, ◌||◌, some, List, [], ◌∷◌, ◌++◌, arith, ltb,
  ==_self, length, keep_if, keep_if-append, length-append, find_first, exists_in, In, here, there,
  Bool-cases, Option-cases, inl, inr,
}
use muxprune.Store.Jobs.{
  Job, Jobs, Status, is_active, is_queued, is_scan_active, is_scan_queued, scan_in_status,
  create_job, rows_affected, is_scan_all, is_scan_of,
}
use muxprune.Store.Tables.{Db, Library, is_library, has_library}
use muxprune.Store.Table.{In-order_by, exists_in-append}
use muxprune.Store.Libraries.{get_library, list_libraries}
use muxprune.Store.Sidecars.{add_job}
use muxprune.Watch.{due_for_scan, enqueue, tick_library, tick_all, tick}

rows_affected-append :
    (p : Job → Bool) (js : Jobs) (j : Job)
    → ltb 0 (rows_affected p js) ≡ true
    → ltb 0 (rows_affected p (js ++ j ∷ [])) ≡ true
rows_affected-append p js j h = ground (
  arith,
  ap length (keep_if-append p js (j ∷ [])),
  length-append (keep_if p js) (keep_if p (j ∷ [])),
)

-- A scan stays in the table as a job joins the queue.
scan_in_status-append :
    (wanted : Status → Bool) (i : ℕ) (js : Jobs) (j : Job)
    → scan_in_status wanted i js ≡ true
    → scan_in_status wanted i (js ++ j ∷ []) ≡ true
unfolding scan_in_status
scan_in_status-append wanted i js j h =
    let p : Job → Bool = λ k. is_scan_all k && wanted k.status in
    elim (Bool-cases (ltb 0 (rows_affected p js))) [
      | inl e ↦ rw (rows_affected-append p js j e) refl
      | inr e ↦ elim (Bool-cases (ltb 0 (rows_affected p (js ++ j ∷ [])))) [
        | inl g ↦ rw g refl
        | inr g ↦ rw g (exists_in-append (λ k. wanted k.status && is_scan_of i k) js j (rw e at h))
      ]
    ]

-- What waits in the queue is active.
exists_in-weaken :
    {A : Type 0} (p q : A → Bool)
    → ((x : A) → p x ≡ true → q x ≡ true)
    → (xs : List A) → exists_in p xs ≡ true
    → exists_in q xs ≡ true
unfolding exists_in
exists_in-weaken p q k [] h = h
exists_in-weaken p q k (x ∷ xs) h = ground (arith, k x, exists_in-weaken p q k xs)

rows_affected-weaken :
    (p q : Job → Bool)
    → ((j : Job) → p j ≡ true → q j ≡ true)
    → (js : Jobs) → ltb 0 (rows_affected p js) ≡ true
    → ltb 0 (rows_affected q js) ≡ true
unfolding keep_if
rows_affected-weaken p q k [] h = h
rows_affected-weaken p q k (j ∷ js) h = ground (arith, k j, rows_affected-weaken p q k js)

is_queued-is_active : (s : Status) → is_queued s ≡ true → is_active s ≡ true
is_queued-is_active Status.queued h = refl
is_queued-is_active Status.running h = refl
is_queued-is_active Status.done h = cc
is_queued-is_active Status.failed h = cc
is_queued-is_active Status.skipped h = cc
is_queued-is_active Status.cancelled h = cc

abbrev all_in : (Status → Bool) → Job → Bool
all_in wanted j = is_scan_all j && wanted j.status

abbrev one_in : (Status → Bool) → ℕ → Job → Bool
one_in wanted i j = wanted j.status && is_scan_of i j

-- A scan of all libraries, or one of this library.
scan_in_status-intro :
    (wanted : Status → Bool) (i : ℕ) (js : Jobs)
    → (ltb 0 (rows_affected (all_in wanted) js) ≡ true) ⊎ (exists_in (one_in wanted i) js ≡ true)
    → scan_in_status wanted i js ≡ true
unfolding scan_in_status
scan_in_status-intro wanted i js (inl e) = rw e refl
scan_in_status-intro wanted i js (inr e) =
    elim (Bool-cases (ltb 0 (rows_affected (all_in wanted) js))) [
      | inl g ↦ rw g refl
      | inr g ↦ rw g e
    ]

is_scan_queued-is_scan_active :
    (i : ℕ) (js : Jobs) → is_scan_queued i js ≡ true → is_scan_active i js ≡ true
unfolding is_scan_queued is_scan_active scan_in_status
is_scan_queued-is_scan_active i js h =
    elim (Bool-cases (ltb 0 (rows_affected (all_in is_queued) js))) [
      | inl e ↦ scan_in_status-intro is_active i js (
          inl (
            rows_affected-weaken (all_in is_queued) (all_in is_active)
              (λ j t. ground (arith, is_queued-is_active j.status, t)) js e))
      | inr e ↦ scan_in_status-intro is_active i js (
          inr (
            exists_in-weaken (one_in is_queued i) (one_in is_active i)
              (λ j t. ground (arith, is_queued-is_active j.status, t)) js (rw e at h)))
    ]

exists_in-last :
    {A : Type 0} (q : A → Bool) (xs : List A) (x : A)
    → q x ≡ true
    → exists_in q (xs ++ x ∷ []) ≡ true
unfolding exists_in
exists_in-last q [] x h = rw h refl
exists_in-last q (y ∷ xs) x h = ground (arith, exists_in-last q xs x h)

find_exists :
    {A : Type 0} (p : A → Bool) (xs : List A)
    → exists_in p xs ≡ true
    → (x : A) × (find_first p xs ≡ some x)
unfolding exists_in find_first
find_exists p [] h = cc
find_exists p (x ∷ xs) h = elim (Bool-cases (p x)) [
  | inl e ↦ (x, rw e refl)
  | inr e ↦ (let (y, g) = find_exists p xs (rw e at h) in (y, rw e g))
]

-- A library that is looked up by the identifier of a row is found.
get_library-In :
    (db : Db) (lib : Library) (ls : List Library) → In lib ls → has_library ls lib.id ≡ true
unfolding exists_in
get_library-In db lib [] i = elim i [ ]
get_library-In db lib (l ∷ ls) (here e) = ground (arith, ap (λ (x : Library). x.id) e)
get_library-In db lib (l ∷ ls) (there i) = ground (arith, get_library-In db lib ls i)

has_library-get_library :
    (i : ℕ) (db : Db)
    → has_library db.libraries i ≡ true
    → (l : Library) × (get_library i db ≡ some l)
unfolding get_library
has_library-get_library i db h = find_exists (is_library i) db.libraries h

-- What one `enqueue` does to the database.
enqueue-is_scan_active :
    (now i : ℕ) (db : Db)
    → has_library db.libraries i ≡ true
    → is_scan_active i (enqueue now i db).jobs ≡ true
unfolding enqueue add_job create_job is_scan_active
enqueue-is_scan_active now i db h = elim (Bool-cases (is_scan_queued i db.jobs)) [
  | inl e ↦ rw e (is_scan_queued-is_scan_active i db.jobs e)
  | inr e ↦
      (let (l, g) = has_library-get_library i db h in
        rw (e, enqueue)
          (rw (g, enqueue)
            (scan_in_status-intro is_active i _
              (inr (exists_in-last (one_in is_active i) db.jobs _ (==_self i))))))
]

enqueue-keeps :
    (now i k : ℕ) (db : Db)
    → is_scan_active k db.jobs ≡ true
    → is_scan_active k (enqueue now i db).jobs ≡ true
unfolding enqueue add_job create_job is_scan_active
enqueue-keeps now i k db h = elim (Bool-cases (is_scan_queued i db.jobs)) [
  | inl e ↦ rw e h
  | inr e ↦ elim (Option-cases (get_library i db)) [
    | inl g ↦ rw (e, enqueue) (rw (g, enqueue) h)
    | inr (l, g) ↦ rw (e, enqueue) (rw (g, enqueue) (scan_in_status-append is_active k db.jobs _ h))
  ]
]

enqueue-libraries : (now i : ℕ) (db : Db) → (enqueue now i db).libraries ≡ db.libraries
unfolding enqueue add_job
enqueue-libraries now i db = elim (Bool-cases (is_scan_queued i db.jobs)) [
  | inl e ↦ rw e refl
  | inr e ↦ elim (Option-cases (get_library i db)) [
    | inl g ↦ rw (e, enqueue) (rw (g, enqueue) refl)
    | inr (l, g) ↦ rw (e, enqueue) (rw (g, enqueue) refl)
  ]
]

module _ (now : ℕ) where
  tick_library-keeps :
      (lib : Library) (k : ℕ) (db : Db)
      → is_scan_active k db.jobs ≡ true
      → is_scan_active k (tick_library now lib db).jobs ≡ true
  tick_library-keeps lib k db h =
      elim (Bool-cases (not (due_for_scan lib now) || is_scan_active lib.id db.jobs)) [
        | inl e ↦ rw e h
        | inr e ↦ rw e (enqueue-keeps now lib.id k db h)
      ]

  tick_library-libraries :
      (lib : Library) (db : Db) → (tick_library now lib db).libraries ≡ db.libraries
  tick_library-libraries lib db =
      elim (Bool-cases (not (due_for_scan lib now) || is_scan_active lib.id db.jobs)) [
        | inl e ↦ rw e refl
        | inr e ↦ rw e (enqueue-libraries now lib.id db)
      ]

  tick_library-due :
      (lib : Library) (db : Db)
      → due_for_scan lib now ≡ true
      → has_library db.libraries lib.id ≡ true
      → is_scan_active lib.id (tick_library now lib db).jobs ≡ true
  tick_library-due lib db due h = elim (Bool-cases (is_scan_active lib.id db.jobs)) [
    | inl e ↦ rw (due, e) e
    | inr e ↦ rw (due, e) (enqueue-is_scan_active now lib.id db h)
  ]

  tick_all-keeps :
      (libs : List Library) (k : ℕ) (db : Db)
      → is_scan_active k db.jobs ≡ true
      → is_scan_active k (tick_all now libs db).jobs ≡ true
  unfolding tick_all
  tick_all-keeps [] k db h = h
  tick_all-keeps (l ∷ libs) k db h =
      tick_all-keeps libs k (tick_library now l db) (tick_library-keeps l k db h)

  tick_all-due :
      (libs : List Library) (lib : Library) (db : Db)
      → In lib libs
      → due_for_scan lib now ≡ true
      → has_library db.libraries lib.id ≡ true
      → is_scan_active lib.id (tick_all now libs db).jobs ≡ true
  unfolding tick_all
  tick_all-due [] lib db i due h = elim i [ ]
  tick_all-due (l ∷ libs) lib db (here e) due h =
      tick_all-keeps libs lib.id (tick_library now l db) (
        subst (λ x. is_scan_active lib.id (tick_library now x db).jobs ≡ true) (sym e)
          (tick_library-due lib db due h))
  tick_all-due (l ∷ libs) lib db (there i) due h =
      tick_all-due libs lib (tick_library now l db) i due (rw (tick_library-libraries l db) h)

-- After a tick, every library whose interval has passed has a scan that waits or runs, be it its own
-- or a scan of all libraries.
pub tick-due :
    (now : ℕ) (lib : Library) (db : Db)
    → In lib db.libraries
    → due_for_scan lib now ≡ true
    → is_scan_active lib.id (tick now db).jobs ≡ true
unfolding tick list_libraries
tick-due now lib db i due =
    tick_all-due now _ lib db (In-order_by _ lib db.libraries i) due
      (get_library-In db lib db.libraries i)
