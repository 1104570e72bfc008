-- ===== src/Watch/Watcher/Timer.antt =====
-- The timer of internal/watch/watcher.go: when it queues a scan, as events follow each other.
use mathlib.Core.Path.{subst}
use muxprune.Base.{
  ℕ, ◌+◌, ◌≤◌, ◌≡◌, refl, sym, ap, ◌∙◌, Bool, true, false, Option, none, some, List, [], ◌∷◌, ◌++◌,
  arith, Text, leb, if◌then◌else◌, In, here, there, Bool-cases, inl, inr,
}
use muxprune.Watch.Watcher.{LibWatcher, fire, Event, schedules, handle}
use muxprune.Watch.Watcher.Live.{IsLive, handle-schedules, handle-quiet}

-- What a timer that fires at the time queues.
unfoldable pub fired : ℕ → LibWatcher × Bool → List ℕ
fired d (w, queued) = if queued then d ∷ [] else []

abbrev pub is_due : ℕ → Option ℕ → Bool
is_due t none = false
is_due t (some d) = leb d t

abbrev pub deadline : Option ℕ → ℕ
deadline none = 0
deadline (some d) = d

-- The times at which scans are queued, for events at the times given: the timer runs beside them, and
-- on after the last.
unfoldable pub queued_at : (Text → Bool) → List (ℕ × Event) → LibWatcher → List ℕ
unfolding fired fire handle
queued_at accepts [] w = elim w.timer [ none ↦ [] | some d ↦ fired d (fire w) ]
queued_at accepts ((t, ev) ∷ events) w =
    let after_fire = queued_at accepts events (handle accepts t ev (fire w).0) in
    let on = queued_at accepts events (handle accepts t ev w) in
    if is_due t w.timer then fired (deadline w.timer) (fire w) ++ after_fire else on

-- The times do not go back.
abbrev pub IsTimed : ℕ → List (ℕ × Event) → Type 0
IsTimed t [] = Unit
IsTimed t ((u, ev) ∷ events) = (t ≤ u) × IsTimed u events

-- A scan is queued at the time or later.
pub record IsQueuedFrom (d : ℕ) (times : List ℕ) : Type 0 where
  pub time : ℕ
  pub no_earlier : d ≤ time
  pub queued : In time times

In-append_left : {A : Type 0} (x : A) (xs ys : List A) → In x xs → In x (xs ++ ys)
In-append_left x [] ys i = elim i [ ]
In-append_left x (y ∷ xs) ys (here e) = here e
In-append_left x (y ∷ xs) ys (there i) = there (In-append_left x xs ys i)

In-fired :
    (delay d : ℕ) (o : Option ℕ) (w : LibWatcher) → IsLive delay o w → In d (fired d (fire w))
unfolding fired fire
In-fired delay d o w l = rw (l.not_stopped, l.not_dead) (here refl)

module _ (accepts : Text → Bool) where
  queued_at-on :
      (u : ℕ) (ev : Event) (events : List (ℕ × Event)) (w : LibWatcher)
      → is_due u w.timer ≡ false
      → queued_at accepts ((u, ev) ∷ events) w ≡ queued_at accepts events (handle accepts u ev w)
  unfolding queued_at
  queued_at-on u ev events w h =
      ap
        (λ b.
          if b
          then fired (deadline w.timer) (fire w)
            ++ queued_at accepts events (handle accepts u ev (fire w).0)
          else queued_at accepts events (handle accepts u ev w))
        h

  In-queued_at :
      (u d : ℕ) (ev : Event) (events : List (ℕ × Event)) (w : LibWatcher)
      → is_due u w.timer ≡ true
      → In d (fired (deadline w.timer) (fire w))
      → In d (queued_at accepts ((u, ev) ∷ events) w)
  unfolding queued_at
  In-queued_at u d ev events w h i =
      subst
        (λ b. In d (
          if b
          then fired (deadline w.timer) (fire w)
            ++ queued_at accepts events (handle accepts u ev (fire w).0)
          else queued_at accepts events (handle accepts u ev w)))
        (sym h) (In-append_left d _ _ i)

  In-queued_last :
      (d : ℕ) (w : LibWatcher)
      → w.timer ≡ some d
      → In d (fired d (fire w))
      → In d (queued_at accepts [] w)
  unfolding queued_at
  In-queued_last d w h i =
      subst (λ (o : Option ℕ). In d (elim o [ none ↦ [] | some k ↦ fired k (fire w) ])) (sym h) i

  module _ (delay : ℕ) where
    IsQueuedFrom-pending :
        (t d : ℕ) (events : List (ℕ × Event)) (w : LibWatcher)
        → IsTimed t events
        → d ≤ t + delay
        → IsLive delay (some d) w
        → IsQueuedFrom d (queued_at accepts events w)
    IsQueuedFrom-pending t d [] w timed le l = record {
      time = d;
      no_earlier = omega arith;
      queued = In-queued_last d w l.timer_is (In-fired delay d (some d) w l);
    }
    IsQueuedFrom-pending t d ((u, ev) ∷ events) w timed le l = elim (Bool-cases (leb d u)) [
      | inl e ↦ record {
        time = d;
        no_earlier = omega arith;
        queued = In-queued_at u d ev events w (ap (is_due u) l.timer_is ∙ e) (
            subst (λ k. In d (fired k (fire w))) (sym (ap deadline l.timer_is))
              (In-fired delay d (some d) w l));
      }
      | inr e ↦
          rw (queued_at-on u ev events w (ap (is_due u) l.timer_is ∙ e))
            (elim (Bool-cases (schedules ev)) [
              | inl s ↦
                  (let later =
                      IsQueuedFrom-pending u (u + delay) events (handle accepts u ev w) timed.1
                        (omega arith) (handle-schedules delay (some d) accepts u ev w s l) in
                    record {
                      time = later.time;
                      no_earlier = omega (arith, later.no_earlier, timed.0, le);
                      queued = later.queued;
                    })
              | inr s ↦
                  IsQueuedFrom-pending u d events (handle accepts u ev w) timed.1
                    (omega (arith, timed.0, le)) (handle-quiet delay (some d) accepts u ev w s l)
            ])
    ]

-- While the watcher is neither stopped nor dead: once an event schedules a scan, one is queued, not
-- before the delay has passed, whatever events follow.
pub handle-IsQueuedFrom :
    (accepts : Text → Bool) (t : ℕ) (ev : Event) (events : List (ℕ × Event)) (w : LibWatcher)
    → w.stopped ≡ false
    → w.dead ≡ false
    → schedules ev ≡ true
    → IsTimed t events
    → IsQueuedFrom (t + w.debounce) (queued_at accepts events (handle accepts t ev w))
handle-IsQueuedFrom accepts t ev events w live alive s timed =
    IsQueuedFrom-pending accepts w.debounce t (t + w.debounce) events (handle accepts t ev w) timed
      (omega arith)
      (handle-schedules w.debounce w.timer accepts t ev w s
        (record { not_stopped = live; not_dead = alive; delay_is = refl; timer_is = refl }))
