-- ===== src/Locks.antt =====
-- `KeyedMutex` of internal/engine/engine.go, which the runner and the engine lock by path: the steps
-- that the goroutines of `Lock` and of the function that it returns take on the shared map.
pub mod Counts
pub mod Entries
pub mod Exclusion
use muxprune.Base.{
  ℕ, suc, ◌+◌, ◌-◌, ◌≡◌, Bool, true, false, not, ◌&&◌, Option, none, some, List, [], ◌∷◌, ◌++◌,
  Text, text_eq, ◌==◌, if◌then◌else◌, exists_in,
}

-- Where a goroutine stands: counted and waiting for the mutex of its key, past `rm.mu.Lock()`, or past
-- `rm.mu.Unlock()` and still counted.
pub data Phase : Type 0 where
  waiting inside leaving : Phase

-- A goroutine between the two critical sections of `k.mu`. `mutex` is its pointer `rm`.
pub record Holder : Type 0 where
  pub key : Text
  pub mutex : ℕ
  pub phase : Phase

-- A `refMutex` in the map: its address, and `refs`.
pub record RefMutex : Type 0 where
  pub address : ℕ
  pub refs : ℕ

abbrev pub Table : Type 0
Table = Text → Option RefMutex

pub record KeyedMutex : Type 0 where
  pub table : Table
  pub holders : List Holder
  -- the address of the next allocation
  pub next : ℕ

abbrev pub write_key : Text → Option RefMutex → Table → Table
write_key key o table k = if text_eq k key then o else table k

abbrev pub join_entry : Option RefMutex → ℕ → RefMutex
join_entry none next = record { address = next; refs = 1 }
join_entry (some rm) next = record rm { refs = suc rm.refs }

-- `rm.refs--`, and `delete(k.m, key)` at zero.
abbrev pub leave_entry : Option RefMutex → Option RefMutex
leave_entry none = none
leave_entry (some rm) = if rm.refs - 1 == 0 then none else some (record rm { refs = rm.refs - 1 })

-- The first critical section of `Lock`.
unfoldable pub enter : Text → KeyedMutex → KeyedMutex
unfolding text_eq
enter key s =
    let rm = join_entry (s.table key) s.next in
    record {
      table = write_key key (some rm) s.table;
      holders = record { key = key; mutex = rm.address; phase = waiting } ∷ s.holders;
      next = suc s.next;
    }

-- The second critical section of the function that `Lock` returns; the rest of the goroutines stay.
unfoldable pub leave : Text → List Holder → KeyedMutex → KeyedMutex
unfolding text_eq
leave key others s = record s {
  table = write_key key (leave_entry (s.table key)) s.table;
  holders = others;
}

abbrev pub is_inside : Phase → Bool
is_inside inside = true
is_inside _ = false

abbrev pub owns : ℕ → Holder → Bool
owns m h = is_inside h.phase && h.mutex == m

-- One step of one goroutine, which stands anywhere among the others. A mutex is taken only while no
-- goroutine has it.
pub data LockStep (s : KeyedMutex) : KeyedMutex → Type 0 where
  entered : (key : Text) → LockStep s (enter key s)
  acquired :
      (xs ys : List Holder) (h : Holder)
      → s.holders ≡ xs ++ h ∷ ys
      → h.phase ≡ waiting
      → exists_in (owns h.mutex) s.holders ≡ false
      → LockStep s (record s { holders = xs ++ record h { phase = inside } ∷ ys })
  released :
      (xs ys : List Holder) (h : Holder)
      → s.holders ≡ xs ++ h ∷ ys
      → h.phase ≡ inside
      → LockStep s (record s { holders = xs ++ record h { phase = leaving } ∷ ys })
  left :
      (xs ys : List Holder) (h : Holder)
      → s.holders ≡ xs ++ h ∷ ys
      → h.phase ≡ leaving
      → LockStep s (leave h.key (xs ++ ys) s)

abbrev pub no_locks : KeyedMutex
no_locks = record { table = λ k. none; holders = []; next = 0 }

pub data LockReachable : KeyedMutex → Type 0 where
  initial : LockReachable no_locks
  stepped : {s t : KeyedMutex} → LockReachable s → LockStep s t → LockReachable t
