-- ===== src/Base/Decimal.antt =====
-- `strconv.Itoa`: integers in decimal.
use Prim.Native.Nat.{ℕ, zero, suc, ◌+◌, ◌/◌, ◌%◌}
use mathlib.Core.List.{[], ◌∷◌}
use muxprune.Base.Tests.{ltb, if◌then◌else◌}
use muxprune.Base.Int.{ℤ, pos, negsuc}
use muxprune.Base.Bytes.{Text}

-- The digits of `n` in front of `acc`; `n + 1` rounds are enough, since each divides by ten.
digits_onto : ℕ → ℕ → Text → Text
digits_onto zero n acc = acc
digits_onto (suc k) n acc =
    let acc' = (b'0' + n % 10) ∷ acc in
    let rest = digits_onto k (n / 10) acc' in if ltb n 10 then acc' else rest

unfoldable pub show_nat : ℕ → Text
unfolding digits_onto
show_nat n = digits_onto (n + 1) n []

unfoldable pub itoa : ℤ → Text
unfolding show_nat
itoa (pos n) = show_nat n
itoa (negsuc n) = b'-' ∷ show_nat (n + 1)
