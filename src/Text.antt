-- ===== src/Text.antt =====
-- Go strings as sequences of bytes, and the functions of the package `strings` that the gateway
-- calls. What depends on the tables of the package `unicode` is a parameter, `Unicode`.
pub mod Decimal
pub mod Unescape
pub mod Escape
pub mod Laws
pub mod Split
pub mod Lower
use Prim.Native.Char.{code}
use Prim.Native.String.{String}
use mathlib.Core.List.{reverse}
use mytonstorage_gateway.Common.{
  All, Bool, List, Option, [], any, false, if◌then◌else◌, leb, ltb, none, some, suc, true, zero, ℕ,
  ◌&&◌, ◌++◌, ◌+◌, ◌==◌, ◌||◌, ◌∷◌, ◌≡◌, ◌≢◌, ◌≤◌, ◌⊎◌,
}

abbrev pub Bytes : Type 0
Bytes = List ℕ

-- The bytes of an ASCII literal.
abbrev pub text : String → Bytes
text String.[] = []
text (String.◌∷◌ c s) = code c ∷ text s

-- `a == b` on strings
abbrev pub bytes_eq : Bytes → Bytes → Bool
bytes_eq [] [] = true
bytes_eq [] (b ∷ t) = false
bytes_eq (a ∷ s) [] = false
bytes_eq (a ∷ s) (b ∷ t) = a == b && bytes_eq s t

-- `a < b` on strings
unfoldable pub bytes_lt : Bytes → Bytes → Bool
bytes_lt s [] = false
bytes_lt [] (b ∷ t) = true
bytes_lt (a ∷ s) (b ∷ t) = ltb a b || (a == b && bytes_lt s t)

-- A byte that a rune outside ASCII may be lowered to: one of an encoding outside ASCII, or the
-- letter of the two runes (U+0130 and U+212A) whose lower case is in ASCII.
abbrev pub IsForeign : ℕ → Type 0
IsForeign b = (128 ≤ b) ⊎ (b ≡ b'i') ⊎ (b ≡ b'k')

-- The tables of the package `unicode`, applied at the first rune of a string or to a whole string.
pub record Unicode : Type 0 where
  -- the bytes of the lower case of the first rune, and how many further bytes that rune takes
  pub lower_rune : Bytes → Bytes × ℕ
  pub lower_rune-ne-nil : (c : ℕ) (s : Bytes) → 128 ≤ c → (lower_rune (c ∷ s)).0 ≢ []
  pub lower_rune-IsForeign : (c : ℕ) (s : Bytes) → 128 ≤ c → All IsForeign (lower_rune (c ∷ s)).0
  -- `strings.TrimFunc(s, unicode.IsSpace)`
  pub trim_func : Bytes → Bytes
  -- `strings.TrimRightFunc(s, unicode.IsSpace)`
  pub trim_right_func : Bytes → Bytes

unfoldable pub lower_byte : ℕ → ℕ
lower_byte c = if leb b'A' c && leb c b'Z' then c + 32 else c

unfoldable pub is_space : ℕ → Bool
is_space c = c == b' ' || (c == 9 || (c == 10 || (c == 11 || (c == 12 || c == 13))))

module _ ⦃u : Unicode⦄ where
  -- `strings.ToLower`, where `skip` bytes belong to a rune that is already lowered
  unfoldable pub lower_from : ℕ → Bytes → Bytes
  lower_from skip [] = []
  lower_from (suc skip) (c ∷ s) = lower_from skip s
  lower_from zero (c ∷ s) =
      let plain = lower_byte c ∷ lower_from zero s in
      let rune = u.lower_rune (c ∷ s) in
      let rest = lower_from rune.1 s in if ltb c 128 then plain else rune.0 ++ rest

  unfoldable pub to_lower : Bytes → Bytes
  unfolding lower_from lower_byte
  to_lower s = lower_from zero s

  -- the second loop of `strings.TrimSpace`, over the reversed text
  unfoldable pub trim_right_rev : Bytes → Bytes
  unfolding is_space
  trim_right_rev [] = []
  trim_right_rev (c ∷ s) =
      let rest = trim_right_rev s in
      if leb 128 c
      then u.trim_right_func (reverse (c ∷ s))
      else if is_space c
      then rest
      else reverse (c ∷ s)

  -- `strings.TrimSpace`
  unfoldable pub trim_space : Bytes → Bytes
  unfolding trim_right_rev is_space
  trim_space [] = []
  trim_space (c ∷ s) =
      let rest = trim_space s in
      if leb 128 c
      then u.trim_func (c ∷ s)
      else if is_space c
      then rest
      else trim_right_rev (reverse (c ∷ s))

-- `strings.ContainsRune(s, c)` for an ASCII rune `c`
abbrev pub contains_byte : ℕ → Bytes → Bool
contains_byte c s = any (λ d. d == c) s

-- `strings.HasPrefix(s, p)`
abbrev pub has_prefix : Bytes → Bytes → Bool
has_prefix s [] = true
has_prefix [] (b ∷ p) = false
has_prefix (a ∷ s) (b ∷ p) = a == b && has_prefix s p

-- `strings.HasSuffix(s, p)`
unfoldable pub has_suffix : Bytes → Bytes → Bool
has_suffix s p = has_prefix (reverse s) (reverse p)

-- `strings.Contains(s, p)`
unfoldable pub contains : Bytes → Bytes → Bool
contains [] p = has_prefix [] p
contains (a ∷ s) p = has_prefix (a ∷ s) p || contains s p

-- `strings.CutPrefix(s, p)`
unfoldable pub cut_prefix : Bytes → Bytes → Option Bytes
cut_prefix s [] = some s
cut_prefix [] (b ∷ p) = none
cut_prefix (a ∷ s) (b ∷ p) = let rest = cut_prefix s p in if a == b then rest else none

-- `strings.TrimLeft(s, cutset)` for a set of one byte
unfoldable pub trim_left : ℕ → Bytes → Bytes
trim_left c [] = []
trim_left c (a ∷ s) = let rest = trim_left c s in if a == c then rest else a ∷ s

-- `strings.Trim(s, cutset)` for a set of one byte
unfoldable pub trim : ℕ → Bytes → Bytes
unfolding trim_left
trim c s = reverse (trim_left c (reverse (trim_left c s)))

abbrev pub cons_head : ℕ → List Bytes → List Bytes
cons_head c [] = (c ∷ []) ∷ []
cons_head c (w ∷ ws) = (c ∷ w) ∷ ws

-- `strings.Split(s, sep)` for a separator of one byte
unfoldable pub split : ℕ → Bytes → List Bytes
split sep [] = [] ∷ []
split sep (c ∷ s) = let rest = split sep s in if c == sep then [] ∷ rest else cons_head c rest

-- `strings.Join(parts, sep)`
unfoldable pub join : Bytes → List Bytes → Bytes
join sep [] = []
join sep (w ∷ []) = w
join sep (w ∷ v ∷ ws) = w ++ (sep ++ join sep (v ∷ ws))
