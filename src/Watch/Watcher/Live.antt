-- ===== src/Watch/Watcher/Live.antt =====
-- The timer of a watcher that is neither stopped nor dead, as it handles events.
use muxprune.Base.{
  ℕ, ◌+◌, ◌≡◌, refl, Bool, true, false, ◌&&◌, Option, none, some, List, ◌++◌, arith, Text, text,
  has_prefix, length, trim_suffix, join_path, if◌then◌else◌, Bool-cases, inl, inr,
}
use muxprune.Scan.Walk.{Tree, leaf, unreadable, folder, file}
use muxprune.Watch.Watcher.{
  LibWatcher, add_watch, add_below, add_recursive, schedule, Event, schedules, handle, forget_path,
}

-- The watcher is neither stopped nor dead, and its timer and delay are these.
pub record IsLive (delay : ℕ) (o : Option ℕ) (w : LibWatcher) : Type 0 where
  pub not_stopped : w.stopped ≡ false
  pub not_dead : w.dead ≡ false
  pub delay_is : w.debounce ≡ delay
  pub timer_is : w.timer ≡ o

module _ (delay : ℕ) (o : Option ℕ) where
  IsLive-add_watch :
      (accepts : Text → Bool) (p : Text) (known : List Text) (w : LibWatcher)
      → IsLive delay o w
      → IsLive delay o (add_watch accepts p known w).1.1
  unfolding add_watch
  IsLive-add_watch accepts p known w l = record {
    not_stopped = ground (arith, l.not_stopped);
    not_dead = ground (arith, l.not_dead);
    delay_is = ground (arith, l.delay_is);
    timer_is = ground (arith, l.timer_is);
  }

  IsLive-add_below :
      (accepts : Text → Bool) (at : Text) (tree : Tree) (s : List Text × LibWatcher)
      → IsLive delay o s.1
      → IsLive delay o (add_below accepts at tree s).1
  unfolding add_below
  IsLive-add_below accepts at leaf s l = l
  IsLive-add_below accepts at (unreadable rest) s l = IsLive-add_below accepts at rest s l
  IsLive-add_below accepts at (file name info target rest) s l =
      IsLive-add_below accepts at rest s l
  IsLive-add_below accepts at (folder name below rest) s l =
      let out = add_watch accepts (join_path at name) s.0 s.1 in
      let added = IsLive-add_watch accepts (join_path at name) s.0 s.1 l in
      let under = add_below accepts (join_path at name) below out.1 in
      IsLive-add_below accepts at rest
        (if has_prefix name (text ".") then s else if out.0 then under else out.1)
        (elim (Bool-cases (has_prefix name (text "."))) [
          | inl h ↦ rw h l
          | inr h ↦ elim (Bool-cases out.0) [
            | inl a ↦ rw (h, a) (IsLive-add_below accepts (join_path at name) below out.1 added)
            | inr a ↦ rw (h, a) added
          ]
        ])

  IsLive-add_recursive :
      (accepts : Text → Bool) (root : Text) (tree : Option Tree) (w : LibWatcher)
      → IsLive delay o w
      → IsLive delay o (add_recursive accepts root tree w)
  unfolding add_recursive
  IsLive-add_recursive accepts root none w l = record {
    not_stopped = l.not_stopped;
    not_dead = l.not_dead;
    delay_is = l.delay_is;
    timer_is = l.timer_is;
  }
  IsLive-add_recursive accepts root (some tree) w l =
      let start = record w { watches = length w.watch_list } in
      let out = add_watch accepts root w.watch_list start in
      let added = IsLive-add_watch accepts root w.watch_list start (record {
        not_stopped = l.not_stopped;
        not_dead = l.not_dead;
        delay_is = l.delay_is;
        timer_is = l.timer_is;
      }) in
      elim (Bool-cases out.0) [
        | inl a ↦
            rw a
              (IsLive-add_below accepts (trim_suffix root (text "/") ++ text "/") tree out.1 added)
        | inr a ↦ rw a added
      ]

  IsLive-forget_path :
      (path : Text) (gone : Bool) (w : LibWatcher)
      → IsLive delay o w
      → IsLive delay o (if gone then forget_path path w else w)
  IsLive-forget_path path false w l = l
  IsLive-forget_path path true w l = record {
    not_stopped = l.not_stopped;
    not_dead = l.not_dead;
    delay_is = l.delay_is;
    timer_is = l.timer_is;
  }

  IsLive-schedule :
      (t : ℕ) (w : LibWatcher) → IsLive delay o w → IsLive delay (some (t + delay)) (schedule t w)
  unfolding schedule
  IsLive-schedule t w l = record {
    not_stopped = l.not_stopped;
    not_dead = l.not_dead;
    delay_is = l.delay_is;
    timer_is = rw l.delay_is refl;
  }

  -- An event that schedules sets the timer; any other leaves it.
  pub handle-schedules :
      (accepts : Text → Bool) (t : ℕ) (ev : Event) (w : LibWatcher)
      → schedules ev ≡ true
      → IsLive delay o w
      → IsLive delay (some (t + delay)) (handle accepts t ev w)
  unfolding handle schedules
  handle-schedules accepts t ev w s l =
      let w' = if ev.gone then forget_path ev.path w else w in
      let l' = IsLive-forget_path ev.path ev.gone w l in
      elim (Bool-cases (ev.created && ev.is_dir)) [
        | inl d ↦
            rw (d, rw d at s)
              (IsLive-schedule t _ (IsLive-add_recursive accepts ev.path ev.below w' l'))
        | inr d ↦ rw (d, rw d at s) (IsLive-schedule t w' l')
      ]

  pub handle-quiet :
      (accepts : Text → Bool) (t : ℕ) (ev : Event) (w : LibWatcher)
      → schedules ev ≡ false
      → IsLive delay o w
      → IsLive delay o (handle accepts t ev w)
  unfolding handle schedules
  handle-quiet accepts t ev w s l =
      let l' = IsLive-forget_path ev.path ev.gone w l in
      elim (Bool-cases (ev.created && ev.is_dir)) [
        | inl d ↦ rw (d, rw d at s) l'
        | inr d ↦ rw (d, rw d at s) l'
      ]
