-- ===== src/Text/Decimal.antt =====
-- `strconv.FormatUint(n, 10)`.
use mathlib.Core.List.{reverse}
use mytonstorage_gateway.Common.{[], if◌then◌else◌, ltb, suc, zero, ℕ, ◌%◌, ◌+◌, ◌/◌, ◌∷◌}
use mytonstorage_gateway.Text.{Bytes}

-- The digits of a number, the last one first; the fuel is more than their number.
unfoldable pub digits_rev : ℕ → ℕ → Bytes
digits_rev zero n = []
digits_rev (suc fuel) n =
    let rest = digits_rev fuel (n / 10) in if ltb n 10 then (48 + n) ∷ [] else (48 + n % 10) ∷ rest

unfoldable pub decimal : ℕ → Bytes
decimal n = reverse (digits_rev (suc n) n)
