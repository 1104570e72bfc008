-- ===== src/Base/Doubles.antt =====
-- Go's `float64`, which is not modelled: the operations that the program makes on it.
use muxprune.Base.Int.{ℤ}
use muxprune.Base.Bytes.{Text}
use Prim.Native.Nat.{ℕ}
use mathlib.Core.Bool.{Bool}

pub record Float (D : Type 0) : Type 0 where
  -- `float64(n)`
  pub of_int : ℤ → D
  -- `decimal n k` is the constant n / 10^k.
  pub decimal : ℕ → ℕ → D
  pub add : D → D → D
  pub sub : D → D → D
  pub mul : D → D → D
  pub div : D → D → D
  pub neg : D → D
  pub lt : D → D → Bool
  -- `int64(x)`
  pub to_int : D → ℤ
  -- the value that `strconv.ParseFloat` returns, with or without an error
  pub parse : Text → D
