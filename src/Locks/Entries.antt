-- ===== src/Locks/Entries.antt =====
-- The entries of the map of `KeyedMutex`: what a change of one entry leaves of those of the goroutines.
use mathlib.Core.Path.{subst}
use muxprune.Base.{
  ℕ, suc, ◌-◌, ◌≤◌, ◌≡◌, refl, sym, ap, ◌∙◌, Bool, true, false, Option, none, some, List, [], ◌∷◌,
  arith, Text, text_eq, text_eq→eq, text_eq_refl, ◌==◌, if◌then◌else◌, keep_if, count_if, All,
  Bool-cases, inl, inr,
}
use muxprune.Locks.{Holder, RefMutex, Table, write_key, join_entry, leave_entry}

abbrev pub has_key : Text → Holder → Bool
has_key k h = text_eq h.key k

abbrev pub refs_of : Option RefMutex → ℕ
refs_of none = 0
refs_of (some rm) = rm.refs

abbrev pub IsAt : Option RefMutex → ℕ → Type 0
IsAt none m = ⊥
IsAt (some rm) m = rm.address ≡ m

abbrev pub HasEntry : Table → Holder → Type 0
HasEntry table h = IsAt (table h.key) h.mutex

-- The entry of one key changes; the goroutines of the others keep theirs.
pub HasEntry-write_key :
    (key : Text) (o : Option RefMutex) (table : Table) (n : ℕ)
    → ((h : Holder) → text_eq h.key key ≡ true → HasEntry table h → 1 ≤ n → IsAt o h.mutex)
    → (hs : List Holder) → count_if (has_key key) hs ≤ n
    → All (HasEntry table) hs
    → All (HasEntry (write_key key o table)) hs
unfolding keep_if
HasEntry-write_key key o table n k [] c a = tt
HasEntry-write_key key o table n k (h ∷ hs) c a = elim (Bool-cases (text_eq h.key key)) [
  | inl e ↦
      (let rest : count_if (has_key key) hs ≤ n = ground (arith, e, c) in
        let some_left : 1 ≤ n = ground (arith, e, c) in
        (
          subst (λ b. IsAt (if b then o else table h.key) h.mutex) (sym e) (k h e a.0 some_left),
          HasEntry-write_key key o table n k hs rest a.1,
        ))
  | inr e ↦
      (let rest : count_if (has_key key) hs ≤ n = ground (arith, e, c) in
        (
          subst (λ b. IsAt (if b then o else table h.key) h.mutex) (sym e) a.0,
          HasEntry-write_key key o table n k hs rest a.1,
        ))
]

pub join_entry-IsAt :
    (o : Option RefMutex) (next m : ℕ) → IsAt o m → IsAt (some (join_entry o next)) m
join_entry-IsAt none next m h = absurd h
join_entry-IsAt (some rm) next m h = h

pub join_entry-refs : (o : Option RefMutex) (next : ℕ) → (join_entry o next).refs ≡ suc (refs_of o)
join_entry-refs none next = refl
join_entry-refs (some rm) next = refl

pub leave_entry-IsAt :
    (o : Option RefMutex) (m : ℕ) → IsAt o m → 2 ≤ refs_of o → IsAt (leave_entry o) m
leave_entry-IsAt none m h two = absurd h
leave_entry-IsAt (some rm) m h two =
    let more : (rm.refs - 1 == 0) ≡ false = ground arith in rw more h

pub leave_entry-refs : (o : Option RefMutex) → refs_of (leave_entry o) ≡ refs_of o - 1
leave_entry-refs none = omega arith
leave_entry-refs (some rm) = ground arith

pub text_eq_sym : (a b : Text) → text_eq a b ≡ text_eq b a
text_eq_sym a b = elim (Bool-cases (text_eq a b)) [
  | inl e ↦ e ∙ sym (ap (λ t. text_eq b t) (text_eq→eq a b e) ∙ text_eq_refl b)
  | inr e ↦ elim (Bool-cases (text_eq b a)) [
    | inl g ↦ (let same = ap (λ t. text_eq a t) (text_eq→eq b a g) ∙ text_eq_refl a in ground arith)
    | inr g ↦ e ∙ sym g
  ]
]

pub IsAt-of_eq :
    (h k : Text) (table : Table) (m : ℕ) → text_eq h k ≡ true → IsAt (table h) m → IsAt (table k) m
IsAt-of_eq h k table m e = subst (λ t. IsAt (table t) m) (text_eq→eq h k e)

-- The reference counts, when the entry of one key changes.
pub counted-write_key :
    (key : Text) (o : Option RefMutex) (table : Table) (c d : Text → ℕ)
    → refs_of o ≡ d key
    → ((k : Text) → text_eq k key ≡ false → d k ≡ c k)
    → ((k : Text) → refs_of (table k) ≡ c k)
    → (k : Text) → refs_of (write_key key o table k) ≡ d k
counted-write_key key o table c d e others all k = elim (Bool-cases (text_eq k key)) [
  | inl t ↦ rw t (e ∙ ap d (sym (text_eq→eq k key t)))
  | inr t ↦ rw t (all k ∙ sym (others k t))
]
