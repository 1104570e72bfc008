-- ===== src/Locks/Exclusion.antt =====
-- The invariant of `KeyedMutex` of internal/engine/engine.go, and the goroutines that have one key.
use mathlib.Core.Path.{subst}
use muxprune.Base.{
  ℕ, ◌+◌, ◌≤◌, ◌≡◌, refl, sym, ap, ◌∙◌, Bool, false, ◌&&◌, Option, none, some, List, [], ◌∷◌, ◌++◌,
  arith, Text, text_eq, text_eq_refl, ◌==◌, ==_iff, if◌then◌else◌, keep_if, count_if, exists_in,
  All, Bool-cases, inl, inr,
}
use muxprune.Locks.{
  Phase, waiting, inside, leaving, Holder, RefMutex, Table, KeyedMutex, join_entry, leave_entry,
  enter, leave, is_inside, owns, LockStep, entered, acquired, released, left, no_locks,
  LockReachable, initial, stepped,
}
use muxprune.Locks.Counts.{count_if-middle, count_if-of_exists, All-middle, All-insert}
use muxprune.Locks.Entries.{
  has_key, refs_of, IsAt, HasEntry, HasEntry-write_key, join_entry-IsAt, join_entry-refs,
  leave_entry-IsAt, leave_entry-refs, text_eq_sym, IsAt-of_eq, counted-write_key,
}

-- Every goroutine counts in the entry of its key, which has its mutex; a mutex has one owner.
pub record LockInv (s : KeyedMutex) : Type 0 where
  pub entries : All (HasEntry s.table) s.holders
  pub counted : (k : Text) → refs_of (s.table k) ≡ count_if (has_key k) s.holders
  pub owners : (m : ℕ) → count_if (owns m) s.holders ≤ 1

count_if-phase :
    (k : Text) (h : Holder) (ph : Phase)
    → count_if (has_key k) (h ∷ []) ≡ count_if (has_key k) (record h { phase = ph } ∷ [])
unfolding keep_if
count_if-phase k h ph = ground arith

-- A goroutine that goes on keeps its key and its mutex.
LockInv-moved :
    (s : KeyedMutex) (xs ys : List Holder) (h : Holder) (ph : Phase)
    → s.holders ≡ xs ++ h ∷ ys
    → ((m : ℕ)
        → count_if (owns m) (record h { phase = ph } ∷ []) + count_if (owns m) (xs ++ ys) ≤ 1)
    → LockInv s
    → LockInv (record s { holders = xs ++ record h { phase = ph } ∷ ys })
LockInv-moved s xs ys h ph e one inv =
    let (mine, rest) =
      All-middle (HasEntry s.table) xs ys h (subst (All (HasEntry s.table)) e inv.entries) in
    record {
      entries = All-insert (HasEntry s.table) xs ys (record h { phase = ph }) mine rest;
      counted = λ k.
          inv.counted k
          ∙ ap (count_if (has_key k)) e
          ∙ count_if-middle (has_key k) xs ys h
          ∙ ap (λ n. n + count_if (has_key k) (xs ++ ys)) (count_if-phase k h ph)
          ∙ sym (count_if-middle (has_key k) xs ys (record h { phase = ph }));
      owners = λ m. omega (arith, count_if-middle (owns m) xs ys (record h { phase = ph }), one m);
    }

-- The one that takes the mutex, which nobody has.
owners-acquired :
    (s : KeyedMutex) (xs ys : List Holder) (h : Holder)
    → s.holders ≡ xs ++ h ∷ ys
    → exists_in (owns h.mutex) s.holders ≡ false
    → LockInv s
    → (m : ℕ)
    → count_if (owns m) (record h { phase = inside } ∷ []) + count_if (owns m) (xs ++ ys) ≤ 1
unfolding keep_if
owners-acquired s xs ys h e free inv m =
    let one = inv.owners m in
    let split = ap (count_if (owns m)) e ∙ count_if-middle (owns m) xs ys h in
    elim (Bool-cases (h.mutex == m)) [
      | inl same ↦
          (let none_yet : count_if (owns m) s.holders ≡ 0 =
              ap (λ k. count_if (owns k) s.holders) (sym ((==_iff h.mutex m).0 same))
              ∙ count_if-of_exists (owns h.mutex) s.holders free in
            ground (arith, split, none_yet, same))
      | inr other ↦ ground (arith, split, one, other)
    ]

owners-released :
    (s : KeyedMutex) (xs ys : List Holder) (h : Holder)
    → s.holders ≡ xs ++ h ∷ ys
    → LockInv s
    → (m : ℕ)
    → count_if (owns m) (record h { phase = leaving } ∷ []) + count_if (owns m) (xs ++ ys) ≤ 1
unfolding keep_if
owners-released s xs ys h e inv m =
    let split = ap (count_if (owns m)) e ∙ count_if-middle (owns m) xs ys h in
    ground (arith, split, inv.owners m)

enter-LockInv : (key : Text) (s : KeyedMutex) → LockInv s → LockInv (enter key s)
unfolding enter keep_if
enter-LockInv key s inv =
    let rm = join_entry (s.table key) s.next in
    let new : Holder = record { key = key; mutex = rm.address; phase = waiting } in
    record {
      entries = (
        subst (λ b. IsAt (if b then some rm else s.table key) rm.address) (sym (text_eq_refl key))
            refl,
        HasEntry-write_key key (some rm) s.table (count_if (has_key key) s.holders)
            (λ h e at _.
              join_entry-IsAt (s.table key) s.next h.mutex
                (IsAt-of_eq h.key key s.table h.mutex e at))
            s.holders (omega arith) inv.entries,
      );
      counted =
          counted-write_key key (some rm) s.table (λ k. count_if (has_key k) s.holders)
            (λ k. count_if (has_key k) (new ∷ s.holders))
            (ground
              (arith, join_entry-refs (s.table key) s.next, inv.counted key, text_eq_refl key))
            (λ k n. ground (arith, n, text_eq_sym key k)) inv.counted;
      owners = λ m. ground (arith, inv.owners m);
    }

leave-LockInv :
    (s : KeyedMutex) (xs ys : List Holder) (h : Holder)
    → s.holders ≡ xs ++ h ∷ ys
    → h.phase ≡ leaving
    → LockInv s
    → LockInv (leave h.key (xs ++ ys) s)
unfolding leave keep_if
leave-LockInv s xs ys h e ph inv =
    let rest =
      (All-middle (HasEntry s.table) xs ys h (subst (All (HasEntry s.table)) e inv.entries)).1 in
    let split : (k : Text)
        → count_if (has_key k) s.holders
          ≡ count_if (has_key k) (h ∷ []) + count_if (has_key k) (xs ++ ys) =
      λ k. ap (count_if (has_key k)) e ∙ count_if-middle (has_key k) xs ys h in
    record {
      entries =
          HasEntry-write_key h.key (leave_entry (s.table h.key)) s.table
            (count_if (has_key h.key) (xs ++ ys))
            (λ g t at n.
              leave_entry-IsAt (s.table h.key) g.mutex (IsAt-of_eq g.key h.key s.table g.mutex t at)
                (ground (arith, split h.key, inv.counted h.key, text_eq_refl h.key, n)))
            (xs ++ ys) (omega arith) rest;
      counted =
          counted-write_key h.key (leave_entry (s.table h.key)) s.table
            (λ k. count_if (has_key k) s.holders) (λ k. count_if (has_key k) (xs ++ ys))
            (ground (
              arith,
              leave_entry-refs (s.table h.key),
              split h.key,
              inv.counted h.key,
              text_eq_refl h.key,
            ))
            (λ k n. ground (arith, n, text_eq_sym h.key k, split k)) inv.counted;
      owners = λ m.
          ground (arith, inv.owners m, ap (count_if (owns m)) e ∙ count_if-middle (owns m) xs ys h);
    }

LockStep-LockInv : {s t : KeyedMutex} → LockStep s t → LockInv s → LockInv t
LockStep-LockInv {s} (entered key) inv = enter-LockInv key s inv
LockStep-LockInv {s} (acquired xs ys h e w free) inv =
    LockInv-moved s xs ys h inside e (owners-acquired s xs ys h e free inv) inv
LockStep-LockInv {s} (released xs ys h e w) inv =
    LockInv-moved s xs ys h leaving e (owners-released s xs ys h e inv) inv
LockStep-LockInv {s} (left xs ys h e w) inv = leave-LockInv s xs ys h e w inv

no_locks-LockInv : LockInv no_locks
unfolding keep_if
no_locks-LockInv = record { entries = tt; counted = λ k. refl; owners = λ m. omega arith }

LockReachable-LockInv : {s : KeyedMutex} → LockReachable s → LockInv s
LockReachable-LockInv initial = no_locks-LockInv
LockReachable-LockInv (stepped r st) = LockStep-LockInv st (LockReachable-LockInv r)

abbrev pub has_lock : Text → Holder → Bool
has_lock k h = is_inside h.phase && text_eq h.key k

abbrev address_of : Option RefMutex → ℕ
address_of none = 0
address_of (some rm) = rm.address

IsAt-address_of : (o : Option RefMutex) (m : ℕ) → IsAt o m → m ≡ address_of o
IsAt-address_of none m h = absurd h
IsAt-address_of (some rm) m h = sym h

has_lock-owns :
    (k : Text) (table : Table) (hs : List Holder)
    → All (HasEntry table) hs
    → count_if (has_lock k) hs ≤ count_if (owns (address_of (table k))) hs
unfolding keep_if
has_lock-owns k table [] a = omega arith
has_lock-owns k table (h ∷ hs) a = elim (Bool-cases (text_eq h.key k)) [
  | inl e ↦
      (let same = IsAt-address_of (table k) h.mutex (IsAt-of_eq h.key k table h.mutex e a.0) in
        ground (arith, e, same, has_lock-owns k table hs a.1))
  | inr e ↦ ground (arith, e, has_lock-owns k table hs a.1)
]

-- However goroutines interleave, at most one of them is between `Lock` and unlock of a key: the entry
-- of the key, and with it the mutex, stays in the map while anyone counts on it.
pub LockReachable-has_lock :
    {s : KeyedMutex} (k : Text) → LockReachable s → count_if (has_lock k) s.holders ≤ 1
LockReachable-has_lock {s} k r =
    let inv = LockReachable-LockInv r in
    omega
      (arith, has_lock-owns k s.table s.holders inv.entries, inv.owners (address_of (s.table k)))
