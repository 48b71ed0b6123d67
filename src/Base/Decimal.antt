-- ===== src/Base/Decimal.antt =====
-- `String(n)` and `padStart(4, '0')` for the numbers in display names.
use Prim.Native.Nat.{ℕ, zero, suc, ◌+◌, ◌/◌, ◌%◌}
use Prim.Native.String.{String, ◌++◌, slice}
use mathlib.Core.Bool.{true, false}
use toaa.Base.Tests.{ltb, if◌then◌else◌}

unfoldable digit : ℕ → String
digit n = slice "0123456789" n (n + 1)

-- The number has at most as many digits as the fuel, which is the number itself.
unfoldable digits : ℕ → ℕ → String
unfolding digit
digits zero n = digit n
digits (suc fuel) n = elim (ltb n 10) [
  | true ↦ digit n
  | false ↦ digits fuel (n / 10) ++ digit (n % 10)
]

unfoldable pub decimal : ℕ → String
unfolding digits
decimal n = digits n n

unfoldable pub padded : ℕ → String
unfolding decimal
padded n =
    if ltb n 10
    then "000" ++ decimal n
    else if ltb n 100
    then "00" ++ decimal n
    else if ltb n 1000
    then "0" ++ decimal n
    else decimal n
