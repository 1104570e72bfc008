-- ===== src/Scan/Owned.antt =====
-- Which video a subtitle belongs to, when its name could follow those of two.
use muxprune.Base.{
  ℕ, ◌≡◌, ◌⊎◌, refl, ap, ◌∙◌, Bool, true, false, ◌&&◌, ◌||◌, some, List, [], ◌∷◌, ◌++◌, arith, Text,
  text, has_prefix, length, keep_if, exists_in, drop, In, here, there, Bool-cases, inl, inr,
}
use muxprune.Scan.Names.{
  Match, is_video, is_dotted, stem, match_sidecar, matches_base, longer_bases, owned_by_longer,
  own_sidecar,
}

-- The base is the head of the name, and a dot follows.
follows : Text → Text → Bool
follows name base = has_prefix name base && is_dotted (drop (length base) name)

match_sidecar-follows :
    (name base : Text) → matches_base name base ≡ true → follows name base ≡ true
unfolding match_sidecar follows
match_sidecar-follows name base h = ground (arith, h)

same_cons : (y z : ℕ) (b c : Text) → y ≡ z → b ≡ c → (y ∷ b) ≡ (z ∷ c)
same_cons y z b c e f = rw (e, f) refl

-- Of two bases that one name follows, one goes on from the other with a dot, or they are equal.
follows-follows :
    (name b c : Text)
    → follows name b ≡ true
    → follows name c ≡ true
    → (b ≡ c) ⊎ ((has_prefix c (b ++ text ".") ≡ true) ⊎ (has_prefix b (c ++ text ".") ≡ true))
unfolding follows has_prefix
follows-follows name [] [] h k = inl refl
follows-follows [] [] (y ∷ c) h k = ground arith
follows-follows (x ∷ name) [] (y ∷ c) h k = inr (inl (ground arith))
follows-follows [] (y ∷ b) c h k = ground arith
follows-follows (x ∷ name) (y ∷ b) [] h k = inr (inr (ground arith))
follows-follows (x ∷ name) (y ∷ b) (z ∷ c) h k =
    elim (follows-follows name b c (ground arith) (ground arith)) [
      | inl e ↦ inl (same_cons y z b c (ground arith) e)
      | inr (inl e) ↦ inr (inl (ground arith))
      | inr (inr e) ↦ inr (inr (ground arith))
    ]

or_true : (b : Bool) → (b || true) ≡ true
or_true b = ground arith

-- A video beside it with a longer base that the name follows takes the name away.
owned_by_longer-In :
    (b name v : Text) (siblings : List Text)
    → In v siblings
    → is_video v ≡ true
    → has_prefix (stem v) (b ++ text ".") ≡ true
    → matches_base name (stem v) ≡ true
    → owned_by_longer b siblings name ≡ true
unfolding owned_by_longer longer_bases exists_in keep_if
owned_by_longer-In b name v [] n i h m = elim n [ ]
owned_by_longer-In b name v (s ∷ siblings) (here e) i h m = rw e (rw (i, h, m) refl)
owned_by_longer-In b name v (s ∷ siblings) (there n) i h m =
    elim (Bool-cases (is_video s && has_prefix (stem s) (b ++ text "."))) [
      | inl e ↦ rw e (
          ap (λ t. matches_base name (stem s) || t) (owned_by_longer-In b name v siblings n i h m)
          ∙ or_true (matches_base name (stem s)))
      | inr e ↦ rw e (owned_by_longer-In b name v siblings n i h m)
    ]

-- What owns a name matches it, and no longer base does.
own_sidecar-matches :
    (b : Text) (siblings : List Text) (name : Text) {m : Match}
    → own_sidecar b siblings name ≡ some m
    → matches_base name b ≡ true
unfolding own_sidecar
own_sidecar-matches b siblings name {m} h = ground (arith, h)

own_sidecar-shortest :
    (b : Text) (siblings : List Text) (name : Text) {m : Match}
    → own_sidecar b siblings name ≡ some m
    → owned_by_longer b siblings name ≡ false
unfolding own_sidecar
own_sidecar-shortest b siblings name {m} h = ground (arith, h)

-- Two videos of one directory never have the same subtitle beside them, unless their names differ
-- in the extension alone.
pub own_sidecar-stem :
    (siblings : List Text) (name v w : Text) (m n : Match)
    → In v siblings
    → In w siblings
    → is_video v ≡ true
    → is_video w ≡ true
    → own_sidecar (stem v) siblings name ≡ some m
    → own_sidecar (stem w) siblings name ≡ some n
    → stem v ≡ stem w
own_sidecar-stem siblings name v w m n i k vi wi h e =
    let mv = own_sidecar-matches (stem v) siblings name h in
    let mw = own_sidecar-matches (stem w) siblings name e in
    elim (follows-follows name (stem v) (stem w) (match_sidecar-follows name (stem v) mv)
      (match_sidecar-follows name (stem w) mw)) [
        | inl same ↦ same
        | inr (inl p) ↦ ground (
          arith,
          own_sidecar-shortest (stem v) siblings name h,
          owned_by_longer-In (stem v) name w siblings k wi p mw,
        )
        | inr (inr p) ↦ ground (
          arith,
          own_sidecar-shortest (stem w) siblings name e,
          owned_by_longer-In (stem w) name v siblings i vi p mv,
        )
      ]
