-- ===== src/RateLimit.antt =====
-- internal/api/security.go: the limit on requests of a client. Times are counted from some start, in
-- nanoseconds; `hits` is the map of windows.
pub mod Bounds
use muxprune.Base.{
  ℕ, ◌+◌, ◌-◌, Bool, true, false, Option, none, some, List, [], ◌∷◌, Text, text_eq, ltb, leb,
  if◌then◌else◌,
}

pub record RateWindow : Type 0 where
  pub count : ℕ
  pub start : ℕ

-- `limit` and `window`
pub record Limits : Type 0 where
  pub limit : ℕ
  pub window : ℕ

abbrev pub Hits : Type 0
Hits = Text → Option RateWindow

abbrev pub put : Text → RateWindow → Hits → Hits
put key w hits k = if text_eq k key then some w else hits k

-- `time.Since(rw.start) > l.window`
abbrev pub is_past : Limits → ℕ → RateWindow → Bool
is_past l now w = ltb l.window (now - w.start)

abbrev pub allow_window : Limits → ℕ → Option RateWindow → Bool × RateWindow
allow_window l now none = (true, record { count = 1; start = now })
allow_window l now (some w) =
    if is_past l now w
    then (true, record { count = 1; start = now })
    else (leb (w.count + 1) l.limit, record w { count = w.count + 1 })

unfoldable pub allow : Limits → ℕ → Text → Hits → Bool × Hits
allow l now key hits = let r = allow_window l now (hits key) in (r.0, put key r.1 hits)

abbrev pub kept_window : Limits → ℕ → Option RateWindow → Option RateWindow
kept_window l now none = none
kept_window l now (some w) = if is_past l now w then none else some w

unfoldable pub sweep : Limits → ℕ → Hits → Hits
sweep l now hits key = kept_window l now (hits key)

-- How many of the calls of one client, at these times, are let through.
unfoldable pub allowed_count : Limits → Text → List ℕ → Hits → ℕ
unfolding allow
allowed_count l key [] hits = 0
allowed_count l key (t ∷ ts) hits =
    let r = allow l t key hits in
    let rest = allowed_count l key ts r.1 in if r.0 then rest + 1 else rest
