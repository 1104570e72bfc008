-- ===== src/Examples/Requests.antt =====
-- A client that calls too often.
use muxprune.Base.{◌≡◌, ◌-◌, ◌≤◌, refl, none, some, [], ◌∷◌, arith, Text, text, text_eq}
use muxprune.RateLimit.{RateWindow, Limits, Hits, put, allowed_count}
use muxprune.RateLimit.Bounds.{allowed_count-le}

abbrev limits : Limits
limits = record { limit = 3; window = 60 }

abbrev client : Text
client = text "10.0.0.1"

abbrev opened : RateWindow
opened = record { count = 1; start = 5 }

abbrev hits : Hits
hits = put client opened (λ k. none)

opened_there : hits client ≡ some opened
unfolding text_eq
opened_there = refl

allowed_count-le_example : allowed_count limits client (6 ∷ 7 ∷ 8 ∷ 65 ∷ []) hits ≤ 3 - 1
allowed_count-le_example =
    allowed_count-le limits client (6 ∷ 7 ∷ 8 ∷ 65 ∷ []) hits opened opened_there
      (omega arith, (omega arith, (omega arith, (omega arith, tt))))
