-- ===== src/Prelude/Text.antt =====
-- Texts put together as `format!` and `join` do, and numbers in decimal.
use Prim.Native.Nat.{ℕ, zero, suc, ◌/◌, ◌%◌}
use Prim.Native.String.{String, ◌++◌}
use mathlib.Core.Bool.{true, false}
use mathlib.Core.List.{List, [], ◌∷◌}
use nlang_tools.Prelude.Tests.{ltb}

-- the pieces of a `format!`, in order
abbrev pub format : List String → String
format [] = ""
format (t ∷ []) = t
format (t ∷ (u ∷ ts)) = t ++ format (u ∷ ts)

-- `[T]::join`
unfoldable pub join : String → List String → String
join sep [] = ""
join sep (t ∷ []) = t
join sep (t ∷ (u ∷ ts)) = t ++ (sep ++ join sep (u ∷ ts))

digit : ℕ → String
digit zero = "0"
digit (suc zero) = "1"
digit (suc (suc zero)) = "2"
digit (suc (suc (suc zero))) = "3"
digit (suc (suc (suc (suc zero)))) = "4"
digit (suc (suc (suc (suc (suc zero))))) = "5"
digit (suc (suc (suc (suc (suc (suc zero)))))) = "6"
digit (suc (suc (suc (suc (suc (suc (suc zero))))))) = "7"
digit (suc (suc (suc (suc (suc (suc (suc (suc zero)))))))) = "8"
digit _ = "9"

-- A number below 10 to the power of the fuel has no more digits than the fuel.
decimal_digits : ℕ → ℕ → String
decimal_digits zero n = ""
decimal_digits (suc fuel) n = elim (ltb n 10) [
  | true ↦ digit n
  | false ↦ decimal_digits fuel (n / 10) ++ digit (n % 10)
]

-- `{}` of an unsigned integer
unfoldable pub decimal : ℕ → String
unfolding decimal_digits digit
decimal n = decimal_digits (suc n) n
