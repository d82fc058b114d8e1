-- ===== src/Text/Escape.antt =====
-- `url.QueryEscape`, and how `url.Parse` reads the user and the password of a URL back.
use mytonstorage_gateway.Common.{
  All, Bool, Bool-cases, Option, [], ap, arith, false, if_elim, if◌then◌else◌, inl, inr, leb, ltb,
  map, none, refl, some, suc, sym, true, zero, ℕ, ◌%◌, ◌&&◌, ◌+◌, ◌/◌, ◌<◌, ◌==◌, ◌||◌, ◌∷◌, ◌≡◌,
  ◌≢◌,
}
use mytonstorage_gateway.Text.{Bytes}
use mytonstorage_gateway.Text.Split.{Lacks}
use mytonstorage_gateway.Text.Unescape.{
  byte_of, cons_byte, hex_value, query_unescape, unescape_from,
}

-- The digit of a value below 16.
unfoldable pub upper_hex : ℕ → ℕ
upper_hex n = if ltb n 10 then n + 48 else n + 55

-- Letters, digits and `-_.~`, which `QueryEscape` leaves.
unfoldable pub is_unreserved : ℕ → Bool
is_unreserved c =
    (leb 48 c && leb c 57)
    || (leb 65 c && leb c 90)
    || (leb 97 c && leb c 122)
    || c == b'-'
    || c == b'_'
    || c == b'.'
    || c == b'~'

unfoldable pub query_escape : Bytes → Bytes
query_escape [] = []
query_escape (c ∷ s) =
    let more = query_escape s in
    if is_unreserved c
    then c ∷ more
    else if c == 32
    then b'+' ∷ more
    else b'%' ∷ upper_hex (c / 16) ∷ upper_hex (c % 16) ∷ more

-- `unescape` in the mode of user names and passwords, which leaves a plus sign; `digits` and `high`
-- as in `unescape_from`.
unfoldable pub user_unescape_from : ℕ → Option ℕ → Bytes → Option Bytes
user_unescape_from zero high [] = some []
user_unescape_from (suc digits) high [] = none
user_unescape_from zero high (c ∷ s) =
    let plain = user_unescape_from zero none s in
    let escaped = user_unescape_from 2 none s in
    if c == b'%' then escaped else cons_byte (some c) plain
user_unescape_from (suc zero) high (c ∷ s) =
    cons_byte (byte_of high (hex_value c)) (user_unescape_from zero none s)
user_unescape_from (suc (suc digits)) high (c ∷ s) = user_unescape_from (suc digits) (hex_value c) s

unfoldable pub user_unescape : Bytes → Option Bytes
user_unescape s = user_unescape_from zero none s

-- The text with a plus sign for each space.
abbrev pub plus_for_space : ℕ → ℕ
plus_for_space c = if c == 32 then b'+' else c

hex_value-upper_hex : (n : ℕ) → n < 16 → hex_value (upper_hex n) ≡ some n
unfolding hex_value upper_hex
hex_value-upper_hex n h = ground arith

byte_of-halves : (c : ℕ) → c < 256 → byte_of (some (c / 16)) (some (c % 16)) ≡ some c
byte_of-halves c h = ground arith

-- `QueryUnescape` reads back what `QueryEscape` wrote.
pub query_unescape-query_escape :
    (s : Bytes) → All (λ c. c < 256) s → query_unescape (query_escape s) ≡ some s
unfolding query_unescape query_escape unescape_from is_unreserved
query_unescape-query_escape [] h = refl
query_unescape-query_escape (c ∷ s) (p, h) = ground (
  arith,
  query_unescape-query_escape s h,
  hex_value-upper_hex (c / 16),
  hex_value-upper_hex (c % 16),
  byte_of-halves c p,
)

-- As a user name or a password, what `QueryEscape` wrote is read with a plus sign for each space.
pub user_unescape-query_escape :
    (s : Bytes)
    → All (λ c. c < 256) s
    → user_unescape (query_escape s) ≡ some (map plus_for_space s)
unfolding user_unescape query_escape user_unescape_from is_unreserved
user_unescape-query_escape [] h = refl
user_unescape-query_escape (c ∷ s) (p, h) = ground (
  arith,
  user_unescape-query_escape s h,
  hex_value-upper_hex (c / 16),
  hex_value-upper_hex (c % 16),
  byte_of-halves c p,
)

upper_hex-is_unreserved : (n : ℕ) → n < 16 → is_unreserved (upper_hex n) ≡ true
unfolding is_unreserved upper_hex
upper_hex-is_unreserved n h = ground arith

-- What `QueryEscape` writes are unreserved characters, plus signs and percent signs.
pub query_escape-Lacks :
    (b : ℕ) (s : Bytes)
    → is_unreserved b ≡ false
    → b ≢ b'+'
    → b ≢ b'%'
    → All (λ c. c < 256) s
    → Lacks b (query_escape s)
unfolding query_escape
query_escape-Lacks b [] free plus percent h = tt
query_escape-Lacks b (c ∷ s) free plus percent (p, h) =
    let rest = query_escape-Lacks b s free plus percent h in
    elim (Bool-cases (is_unreserved c)) [
      | inl same ↦ rw same (other c same, rest)
      | inr escaped ↦ rw escaped (
          if_elim (Lacks b) (c == 32) ((λ e. plus (sym e)), rest)
            (
              (λ e. percent (sym e)),
              (
                other (upper_hex (c / 16)) (upper_hex-is_unreserved (c / 16) (omega (arith, p))),
                (other (upper_hex (c % 16)) (upper_hex-is_unreserved (c % 16) (omega arith)), rest),
              ),
            ))
    ]
  where
    other : (k : ℕ) → is_unreserved k ≡ true → k ≢ b
    other k e same = ground (arith, ap is_unreserved same)
