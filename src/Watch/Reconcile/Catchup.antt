-- ===== src/Watch/Reconcile/Catchup.antt =====
-- What `Reconcile` of internal/watch/monitor.go does for a library whose watcher goes.
use muxprune.Base.{
  ℕ, ◌≡◌, ◌⊎◌, refl, sym, ap, ◌∙◌, Bool, true, false, not, ◌||◌, Option, none, some, List, [], ◌∷◌,
  arith, Text, Outcome, ok, err, ◌==◌, ==_iff, ==_self, if◌then◌else◌, find_first, exists_in,
  keep_if, Bool-cases, inl, inr,
}
use muxprune.Store.Table.{delete_where}
use muxprune.Store.Tables.{Library}
use muxprune.Watch.Reconcile.{
  Watch, MonitorState, Outside, watches, insert_id, remove_id, has_id, is_unwanted, is_listed,
  drop_unwanted, is_forgotten, drop_forgotten, drop_watch, new_watch, stop_watch, start_watcher,
  watch_again, reconcile_library, reconcile_all, reconcile,
}

find_first-others :
    (i k : ℕ) (ws : List Watch)
    → (k == i) ≡ false
    → find_first (watches i) (delete_where (watches k) ws) ≡ find_first (watches i) ws
unfolding find_first delete_where keep_if
find_first-others i k [] n = refl
find_first-others i k (w ∷ ws) n = ground (arith, find_first-others i k ws n)

has_id-keep_if :
    (i : ℕ) (p : ℕ → Bool) (is : List ℕ)
    → p i ≡ true
    → has_id i is ≡ true
    → has_id i (keep_if p is) ≡ true
unfolding exists_in keep_if
has_id-keep_if i p [] t h = h
has_id-keep_if i p (k ∷ is) t h = elim (Bool-cases (k == i)) [
  | inl e ↦ (let kept : p k ≡ true = ap p ((==_iff k i).0 e) ∙ t in rw kept (rw e refl))
  | inr e ↦ ground (arith, has_id-keep_if i p is t, e)
]

has_id-insert_id : (i k : ℕ) (is : List ℕ) → has_id i is ≡ true → has_id i (insert_id k is) ≡ true
unfolding exists_in
has_id-insert_id i k is h = elim (Bool-cases (k == i)) [
  | inl e ↦ rw e refl
  | inr e ↦ rw e (has_id-keep_if i (λ n. not (n == k)) is (ground arith) h)
]

has_id_inserted : (i : ℕ) (is : List ℕ) → has_id i (insert_id i is) ≡ true
unfolding exists_in
has_id_inserted i is = rw (==_self i) refl

has_id-remove_id :
    (i k : ℕ) (is : List ℕ)
    → (k == i) ≡ false
    → has_id i is ≡ true
    → has_id i (remove_id k is) ≡ true
has_id-remove_id i k is n h = has_id-keep_if i (λ j. not (j == k)) is (ground arith) h

-- A watcher of the library that was scheduled as it started.
pub record IsScheduled (i : ℕ) (ws : List Watch) : Type 0 where
  pub watch : Watch
  pub found : find_first (watches i) ws ≡ some watch
  pub scheduled : watch.scheduled ≡ true

module _ (i : ℕ) (w : Watch) where
  -- The watcher is the same, or the scan is noted, or it is scheduled.
  abbrev pub IsCovered : MonitorState → Type 0
  IsCovered s =
      (find_first (watches i) s.watchers ≡ some w)
      ⊎ ((has_id i s.catchup ≡ true) ⊎ IsScheduled i s.watchers)

  -- The same watchers of this library, and no less to catch up on.
  IsCovered-map :
      (s t : MonitorState)
      → find_first (watches i) t.watchers ≡ find_first (watches i) s.watchers
      → (has_id i s.catchup ≡ true → has_id i t.catchup ≡ true)
      → IsCovered s
      → IsCovered t
  IsCovered-map s t same more (inl h) = inl (same ∙ h)
  IsCovered-map s t same more (inr (inl h)) = inr (inl (more h))
  IsCovered-map s t same more (inr (inr c)) =
      inr (inr (record { watch = c.watch; found = same ∙ c.found; scheduled = c.scheduled }))

  module _ (global : Bool) (out : Outside) (libs : List Library)
      (listed : is_listed libs i ≡ true) where
    drop_watch-IsCovered :
        (v : Watch) (s : MonitorState) → IsCovered s → IsCovered (drop_watch libs v s)
    drop_watch-IsCovered v s c = elim (Bool-cases (v.lib_id == i)) [
      | inl same ↦ inr (
          inl (
            let there : is_listed libs v.lib_id ≡ true =
              ap (is_listed libs) ((==_iff v.lib_id i).0 same) ∙ listed in
            rw there (
              ap (λ k. has_id i (insert_id k s.catchup)) ((==_iff v.lib_id i).0 same)
              ∙ has_id_inserted i s.catchup)))
      | inr other ↦
          IsCovered-map s (drop_watch libs v s) (find_first-others i v.lib_id s.watchers other)
            (λ h. elim (Bool-cases (is_listed libs v.lib_id)) [
              | inl l ↦ rw l (has_id-insert_id i v.lib_id s.catchup h)
              | inr l ↦ rw l h
            ])
            c
    ]

    drop_unwanted-IsCovered :
        (ws : List Watch) (s : MonitorState)
        → IsCovered s
        → IsCovered (drop_unwanted global out libs ws s)
    unfolding drop_unwanted
    drop_unwanted-IsCovered [] s c = c
    drop_unwanted-IsCovered (v ∷ ws) s c =
        drop_unwanted-IsCovered ws
          (if is_unwanted global out libs v then drop_watch libs v s else s)
          (elim (Bool-cases (is_unwanted global out libs v)) [
            | inl e ↦ rw e (drop_watch-IsCovered v s c)
            | inr e ↦ rw e c
          ])

    drop_forgotten-IsCovered : (s : MonitorState) → IsCovered s → IsCovered (drop_forgotten libs s)
    unfolding drop_forgotten
    drop_forgotten-IsCovered s c =
        IsCovered-map s (drop_forgotten libs s) refl
          (λ h.
            has_id-keep_if i (λ k. not (is_forgotten libs s.statuses k)) s.catchup
              (rw listed (ground arith)) h)
          c

  -- A new watcher of the library takes over what is noted.
  start_watcher-IsCovered :
      (lib : Library) (r : Outcome Text Bool) (s : MonitorState)
      → has_id i s.catchup ≡ true
      → IsCovered (start_watcher lib r s)
  unfolding find_first
  start_watcher-IsCovered lib (err e) s h = inr (inl h)
  start_watcher-IsCovered lib (ok degraded) s h = elim (Bool-cases (lib.id == i)) [
    | inl same ↦ inr (
        inr (record {
          watch = new_watch lib s;
          found = rw same refl;
          scheduled = ap (λ k. has_id k s.catchup) ((==_iff lib.id i).0 same) ∙ h;
        }))
    | inr other ↦ inr (inl (has_id-remove_id i lib.id s.catchup other h))
  ]

  start_watcher-others :
      (lib : Library) (r : Outcome Text Bool) (s : MonitorState)
      → (lib.id == i) ≡ false
      → IsCovered s
      → IsCovered (start_watcher lib r s)
  unfolding find_first
  start_watcher-others lib (err e) s n c = c
  start_watcher-others lib (ok degraded) s n c =
      IsCovered-map s (start_watcher lib (ok degraded) s)
        (rw n (find_first-others i lib.id s.watchers n)) (has_id-remove_id i lib.id s.catchup n) c

  -- Without a watcher, the scan is noted.
  IsCovered-noted :
      (s : MonitorState)
      → find_first (watches i) s.watchers ≡ none
      → IsCovered s
      → has_id i s.catchup ≡ true
  IsCovered-noted s n (inl h) = cc
  IsCovered-noted s n (inr (inl h)) = h
  IsCovered-noted s n (inr (inr c)) = (let h = c.found in cc)

  watch_again-others :
      (out : Outside) (lib : Library) (o : Option Watch) (s : MonitorState)
      → (lib.id == i) ≡ false
      → IsCovered s
      → IsCovered (watch_again out lib o s)
  watch_again-others out lib none s n c = start_watcher-others lib (out.start lib) s n c
  watch_again-others out lib (some v) s n c = elim (Bool-cases (out.is_healthy v)) [
    | inl e ↦ rw e c
    | inr e ↦ rw e (
        start_watcher-others lib (out.start lib) (stop_watch lib v s) n (
          IsCovered-map s (stop_watch lib v s) (find_first-others i lib.id s.watchers n)
            (has_id-insert_id i lib.id s.catchup) c))
  ]

  watch_again-same :
      (out : Outside) (lib : Library) (o : Option Watch) (s : MonitorState)
      → lib.id ≡ i
      → find_first (watches i) s.watchers ≡ o
      → IsCovered s
      → IsCovered (watch_again out lib o s)
  watch_again-same out lib none s e h c =
      start_watcher-IsCovered lib (out.start lib) s (IsCovered-noted s h c)
  watch_again-same out lib (some v) s e h c = elim (Bool-cases (out.is_healthy v)) [
    | inl g ↦ rw g c
    | inr g ↦ rw g (
        start_watcher-IsCovered lib (out.start lib) (stop_watch lib v s)
          (ap (λ k. has_id i (insert_id k s.catchup)) e ∙ has_id_inserted i s.catchup))
  ]

  watch_again-IsCovered :
      (out : Outside) (lib : Library) (s : MonitorState)
      → IsCovered s
      → IsCovered (watch_again out lib (find_first (watches lib.id) s.watchers) s)
  watch_again-IsCovered out lib s c = elim (Bool-cases (lib.id == i)) [
    | inr n ↦ watch_again-others out lib (find_first (watches lib.id) s.watchers) s n c
    | inl e ↦
        (let same = (==_iff lib.id i).0 e in
          watch_again-same out lib (find_first (watches lib.id) s.watchers) s same
            (ap (λ k. find_first (watches k) s.watchers) (sym same)) c)
  ]

  reconcile_library-IsCovered :
      (global : Bool) (out : Outside) (lib : Library) (s : MonitorState)
      → IsCovered s
      → IsCovered (reconcile_library global out lib s)
  unfolding reconcile_library
  reconcile_library-IsCovered global out lib s c = elim (Bool-cases (not lib.watch_enabled)) [
    | inl e ↦ rw e c
    | inr e ↦ elim (Bool-cases (not global || not (out.is_local_fs lib.path))) [
      | inl g ↦ rw (e, g) c
      | inr g ↦ rw (e, g) (watch_again-IsCovered out lib s c)
    ]
  ]

  reconcile_all-IsCovered :
      (global : Bool) (out : Outside) (libs : List Library) (s : MonitorState)
      → IsCovered s
      → IsCovered (reconcile_all global out libs s)
  unfolding reconcile_all
  reconcile_all-IsCovered global out [] s c = c
  reconcile_all-IsCovered global out (lib ∷ libs) s c =
      reconcile_all-IsCovered global out libs (reconcile_library global out lib s)
        (reconcile_library-IsCovered global out lib s c)

-- Take a library that is still listed, and a watcher. If that is the library's watcher, or its scan
-- is noted to catch up on, or it has a watcher that was scheduled as it started, then one of the
-- three holds after a reconciliation too: no change falls between two watchers.
pub reconcile-IsCovered :
    (global : Bool) (out : Outside) (libs : List Library) (s : MonitorState) (i : ℕ) (w : Watch)
    → is_listed libs i ≡ true
    → IsCovered i w s
    → IsCovered i w (reconcile global out libs s)
unfolding reconcile
reconcile-IsCovered global out libs s i w listed c =
    let dropped = drop_unwanted global out libs s.watchers s in
    reconcile_all-IsCovered i w global out libs (drop_forgotten libs dropped) (
      drop_forgotten-IsCovered i w global out libs listed dropped
        (drop_unwanted-IsCovered i w global out libs listed s.watchers s c))
