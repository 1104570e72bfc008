-- ===== src/RateLimit/Bounds.antt =====
-- How many requests the rate limiter lets through.
use muxprune.Base.{
  ℕ, ◌+◌, ◌-◌, ◌≤◌, ◌≡◌, some, List, [], ◌∷◌, arith, Text, text_eq_refl, leb, Option-cases, inl,
  inr, All,
}
use muxprune.RateLimit.{RateWindow, Limits, Hits, allow, sweep, allowed_count}

within_window :
    (l : Limits) (key : Text) (t : ℕ) (hits : Hits) (w : RateWindow)
    → hits key ≡ some w
    → t - w.start ≤ l.window
    → (allow l t key hits).0 ≡ leb (w.count + 1) l.limit
within_window l key t hits w h i = unfold allow in ground arith

window_after :
    (l : Limits) (key : Text) (t : ℕ) (hits : Hits) (w : RateWindow)
    → hits key ≡ some w
    → t - w.start ≤ l.window
    → (allow l t key hits).1 key ≡ some (record w { count = w.count + 1 })
window_after l key t hits w h i = unfold allow in ground (arith, text_eq_refl key)

-- While a window lasts, no more calls of its client are let through than the limit has left.
pub allowed_count-le :
    (l : Limits) (key : Text) (ts : List ℕ) (hits : Hits) (w : RateWindow)
    → hits key ≡ some w
    → All (λ t. t - w.start ≤ l.window) ts
    → allowed_count l key ts hits ≤ l.limit - w.count
unfolding allowed_count
allowed_count-le l key [] hits w h a = omega arith
allowed_count-le l key (t ∷ ts) hits w h a =
    let answer = within_window l key t hits w h a.0 in
    let rest =
      allowed_count-le l key ts (allow l t key hits).1 (record w { count = w.count + 1 })
        (window_after l key t hits w h a.0) a.1 in
    ground (arith, answer, rest)

-- A sweep at the time of a call changes neither the answer nor what is stored of the client.
pub allow-sweep :
    (l : Limits) (now : ℕ) (key : Text) (hits : Hits)
    → ((allow l now key (sweep l now hits)).0 ≡ (allow l now key hits).0)
      × ((allow l now key (sweep l now hits)).1 key ≡ (allow l now key hits).1 key)
unfolding allow sweep
allow-sweep l now key hits = elim (Option-cases (hits key)) [
  | inl e ↦ ground (arith, text_eq_refl key)
  | inr (w, e) ↦ ground (arith, text_eq_refl key)
]
