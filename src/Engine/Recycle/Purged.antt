-- ===== src/Engine/Recycle/Purged.antt =====
-- `PurgeRecycle`: what is deleted, and what is counted. `uniqueDst`: which name it finds.
use mathlib.Core.Path.{subst}
use muxprune.Base.{
  text_eq, text_eq→eq, ℕ, zero, suc, ◌+◌, ◌≤◌, ◌<◌, ◌≡◌, ◌⊎◌, refl, sym, ap, ◌∙◌, Bool, true, false,
  ◌&&◌, Option, none, some, List, [], ◌∷◌, arith, Text, ℤ, Bool-cases, inl, inr, In, here, there,
  count_if, keep_if, join_path,
}
use muxprune.Engine.Io.{FileInfo, Fs, Os, write_entry}
use muxprune.Engine.Recycle.{Calls, candidate, is_taken, unique_dst, is_expired, purge_loop}

-- A path that the purge may delete: that of an entry that has expired.
abbrev pub IsPurged : Calls → ℤ → Text → List (Text × Option FileInfo) → Text → Type 0
IsPurged calls cutoff d es p =
    (e : Text × Option FileInfo) × In e es
    × (is_expired calls cutoff e ≡ true)
    × (join_path d e.0 ≡ p)

module _ (os : Os) (calls : Calls) (cutoff : ℤ) (d : Text) where
  later-IsPurged :
      (e : Text × Option FileInfo) (es : List (Text × Option FileInfo)) (p : Text)
      → IsPurged calls cutoff d es p
      → IsPurged calls cutoff d (e ∷ es) p
  later-IsPurged e es p (x, i, h, q) = (x, there i, h, q)

  -- A purge changes no path but those of expired entries, and each that it changes is gone.
  pub purge_loop-IsPurged :
      (es : List (Text × Option FileInfo)) (n : ℕ) (fs : Fs) (p : Text)
      → ((purge_loop os calls cutoff d es n fs).1 p ≡ fs p)
        ⊎ (IsPurged calls cutoff d es p × ((purge_loop os calls cutoff d es n fs).1 p ≡ none))
  unfolding purge_loop
  purge_loop-IsPurged [] n fs p = inl refl
  purge_loop-IsPurged (e ∷ es) n fs p =
      elim (Bool-cases (is_expired calls cutoff e && os.remove_ok fs (join_path d e.0))) [
        | inr t ↦ rw t (elim (purge_loop-IsPurged es n fs p) [
          | inl q ↦ inl q
          | inr (x, q) ↦ inr (later-IsPurged e es p x, q)
        ])
        | inl t ↦
            rw t (elim (purge_loop-IsPurged es (suc n) (write_entry (join_path d e.0) none fs) p) [
              | inr (x, q) ↦ inr (later-IsPurged e es p x, q)
              | inl q ↦ elim (Bool-cases (text_eq p (join_path d e.0))) [
                | inr u ↦ inl (q ∙ rw u refl)
                | inl u ↦ inr (
                  (e, here refl, ground arith, sym (text_eq→eq p (join_path d e.0) u)),
                  q ∙ rw u refl,
                )
              ]
            ])
      ]

  -- The number that a purge reports is at most that of the expired entries, more than it began with.
  pub purge_loop-le-count_if :
      (es : List (Text × Option FileInfo)) (n : ℕ) (fs : Fs)
      → (purge_loop os calls cutoff d es n fs).0 ≤ n + count_if (is_expired calls cutoff) es
  unfolding purge_loop keep_if
  purge_loop-le-count_if [] n fs = omega arith
  purge_loop-le-count_if (e ∷ es) n fs = ground (
    arith,
    purge_loop-le-count_if es n fs,
    purge_loop-le-count_if es (suc n) (write_entry (join_path d e.0) none fs),
  )

-- What the search finds from name `i` on: the first name that is free, at most `k` names on.
pub record FirstFree (os : Os) (fs : Fs) (d name : Text) (i k : ℕ) (found : Option Text)
    : Type 0 where
  pub steps : ℕ
  pub is_some : found ≡ some (candidate d name (i + steps))
  pub near : steps ≤ k
  pub free : is_taken os fs (candidate d name (i + steps)) ≡ false
  pub others_taken : (m : ℕ) → m < steps → is_taken os fs (candidate d name (i + m)) ≡ true

module _ (os : Os) (fs : Fs) (d name : Text) where
  Taken : ℕ → Bool → Type 0
  Taken n b = is_taken os fs (candidate d name n) ≡ b

  FirstFree-here :
      (i k : ℕ) → Taken i false → FirstFree os fs d name i k (some (candidate d name i))
  unfolding Taken
  FirstFree-here i k t = record {
    steps = 0;
    is_some = ap (λ n. some (candidate d name n)) (omega arith);
    near = omega arith;
    free = subst (λ n. Taken n false) (omega arith) t;
    others_taken = λ m u. absurd (omega arith);
  }

  Taken-before :
      (i j : ℕ)
      → Taken i true
      → ((m : ℕ) → m < j → Taken (suc i + m) true)
      → (m : ℕ) → m < suc j
      → Taken (i + m) true
  unfolding Taken
  Taken-before i j t h zero u = subst (λ n. Taken n true) (omega arith) t
  Taken-before i j t h (suc m) u = subst (λ n. Taken n true) (omega arith) (h m (omega arith))

  FirstFree-later :
      (i k : ℕ) (found : Option Text)
      → Taken i true
      → FirstFree os fs d name (suc i) k found
      → FirstFree os fs d name i (suc k) found
  unfolding Taken
  FirstFree-later i k found t r = record {
    steps = suc r.steps;
    is_some = r.is_some ∙ ap (λ n. some (candidate d name n)) (omega arith);
    near = omega (arith, r.near);
    free = subst (λ n. Taken n false) (omega arith) r.free;
    others_taken = Taken-before i r.steps t r.others_taken;
  }

  -- The search for a free name, given more rounds than there are names before one that is free: it
  -- ends, with the first free name.
  pub unique_dst-FirstFree :
      (i k rounds : ℕ)
      → is_taken os fs (candidate d name (i + k)) ≡ false
      → k < rounds
      → FirstFree os fs d name i k (unique_dst os fs d name rounds i)
  unfolding unique_dst Taken
  unique_dst-FirstFree i k zero h l = absurd (omega arith)
  unique_dst-FirstFree i zero (suc rounds) h l =
      let t : Taken i false = subst (λ n. Taken n false) (omega arith) h in
      rw t (FirstFree-here i zero t)
  unique_dst-FirstFree i (suc k) (suc rounds) h l =
      elim (Bool-cases (is_taken os fs (candidate d name i))) [
        | inr t ↦ rw t (FirstFree-here i (suc k) t)
        | inl t ↦ rw t (
            FirstFree-later i k _ t (
              unique_dst-FirstFree (suc i) k rounds (subst (λ n. Taken n false) (omega arith) h)
                (omega arith)))
      ]
