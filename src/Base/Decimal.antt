-- ===== src/Base/Decimal.antt =====
-- `{}` of a number.
use Prim.Native.Char.{Char, char}
use Prim.Native.String.{String, ◌∷◌}
use Prim.Native.Nat.{ℕ, zero, suc, ◌/◌, ◌%◌}
use mathlib.Core.Bool.{true, false}
use korg.Base.Bools.{ltb}

decimal_digit : ℕ → Char
decimal_digit zero = char 48 tt
decimal_digit (suc zero) = char 49 tt
decimal_digit (suc (suc zero)) = char 50 tt
decimal_digit (suc (suc (suc zero))) = char 51 tt
decimal_digit (suc (suc (suc (suc zero)))) = char 52 tt
decimal_digit (suc (suc (suc (suc (suc zero))))) = char 53 tt
decimal_digit (suc (suc (suc (suc (suc (suc zero)))))) = char 54 tt
decimal_digit (suc (suc (suc (suc (suc (suc (suc zero))))))) = char 55 tt
decimal_digit (suc (suc (suc (suc (suc (suc (suc (suc zero)))))))) = char 56 tt
decimal_digit n = char 57 tt

-- The digits are put before what is written already, the last one first.
decimal_from : ℕ → ℕ → String → String
unfolding decimal_digit
decimal_from zero n s = decimal_digit n ∷ s
decimal_from (suc fuel) n s = elim (ltb n 10) [
  | true ↦ decimal_digit n ∷ s
  | false ↦ decimal_from fuel (n / 10) (decimal_digit (n % 10) ∷ s)
]

-- A number has no more digits than itself, and one.
unfoldable pub decimal : ℕ → String
unfolding decimal_from
decimal n = decimal_from n n ""
