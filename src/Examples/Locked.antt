-- ===== src/Examples/Locked.antt =====
-- Two goroutines that want one path.
use muxprune.Base.{ℕ, ◌≤◌, ◌≡◌, refl, true, false, List, [], ◌∷◌, Text, text, count_if}
use muxprune.Locks.{
  KeyedMutex, waiting, inside, enter, no_locks, entered, acquired, LockReachable, initial, stepped,
}
use muxprune.Locks.Exclusion.{has_lock, LockReachable-has_lock}

abbrev path : Text
path = text "/m/a.mkv"

abbrev first : KeyedMutex
first = enter path no_locks

abbrev owned : KeyedMutex
owned = record first { holders = record { key = path; mutex = 0; phase = inside } ∷ [] }

first_takes : LockReachable owned
unfolding enter muxprune.Base.exists_in
first_takes =
    stepped (stepped initial (entered path))
      (acquired [] [] (record { key = path; mutex = 0; phase = waiting }) refl refl refl)

LockReachable-has_lock_example : count_if (has_lock path) (enter path owned).holders ≤ 1
LockReachable-has_lock_example = LockReachable-has_lock path (stepped first_takes (entered path))
