-- ===== src/Text/Unescape.antt =====
-- `url.QueryUnescape`.
use mytonstorage_gateway.Common.{
  Option, [], if◌then◌else◌, leb, none, some, suc, zero, ℕ, ◌&&◌, ◌*◌, ◌+◌, ◌-◌, ◌==◌, ◌∷◌,
}
use mytonstorage_gateway.Text.{Bytes}

-- The value of a hexadecimal digit.
unfoldable pub hex_value : ℕ → Option ℕ
hex_value c =
    if leb 48 c && leb c 57
    then some (c - 48)
    else if leb 97 c && leb c 102
    then some (c - 87)
    else if leb 65 c && leb c 70
    then some (c - 55)
    else none

abbrev pub cons_byte : Option ℕ → Option Bytes → Option Bytes
cons_byte none rest = none
cons_byte (some c) none = none
cons_byte (some c) (some rest) = some (c ∷ rest)

-- The byte of two hexadecimal digits.
abbrev pub byte_of : Option ℕ → Option ℕ → Option ℕ
byte_of none low = none
byte_of (some high) none = none
byte_of (some high) (some low) = some (16 * high + low)

-- What follows a percent sign is two digits, `digits` of which are still to come; `high` is the
-- first of them.
unfoldable pub unescape_from : ℕ → Option ℕ → Bytes → Option Bytes
unescape_from zero high [] = some []
unescape_from (suc digits) high [] = none
unescape_from zero high (c ∷ s) =
    let plain = unescape_from zero none s in
    let escaped = unescape_from 2 none s in
    if c == b'%' then escaped else cons_byte (some (if c == b'+' then 32 else c)) plain
unescape_from (suc zero) high (c ∷ s) =
    cons_byte (byte_of high (hex_value c)) (unescape_from zero none s)
unescape_from (suc (suc digits)) high (c ∷ s) = unescape_from (suc digits) (hex_value c) s

unfoldable pub query_unescape : Bytes → Option Bytes
query_unescape s = unescape_from zero none s
