-- ===== src/HttpServer/Validate/BagId.antt =====
-- Bag IDs that `validateBagID` of pkg/httpServer/helpers.go accepts.
use mytonstorage_gateway.Common.{
  All, Bool, Bool-cases, [], arith, false, inl, inr, length, ltb, refl, some, suc, true, ℕ, ◌++◌,
  ◌<◌, ◌==◌, ◌↔◌, ◌∷◌, ◌≡◌, ◌≢◌, ◌≤◌, ◌⊎◌,
}
use mytonstorage_gateway.HttpServer.Validate.{
  bag_id_length, hex_loop, is_lower_hex, validate_bag_id,
}
use mytonstorage_gateway.Text.{Bytes, IsForeign, Unicode, lower_byte, lower_from, to_lower}

-- A hexadecimal digit, of either case.
abbrev pub IsHex : ℕ → Type 0
IsHex c = ((b'0' ≤ c) × (c ≤ b'9')) ⊎ ((b'a' ≤ c) × (c ≤ b'f')) ⊎ ((b'A' ≤ c) × (c ≤ b'F'))

-- A bag ID: 64 hexadecimal digits.
pub record IsBagId (s : Bytes) : Type 0 where
  pub size : length s ≡ bag_id_length
  pub digits : All IsHex s

foreign-not-hex : (c : ℕ) → IsForeign c → is_lower_hex c ≡ false
unfolding is_lower_hex
foreign-not-hex c h = ground arith

hex-lower : (c : ℕ) → IsHex c → is_lower_hex (lower_byte c) ≡ true
unfolding is_lower_hex lower_byte
hex-lower c h = ground arith

lower-IsHex : (c : ℕ) → is_lower_hex (lower_byte c) ≡ true → IsHex c
unfolding is_lower_hex lower_byte
lower-IsHex c h = ground arith

hex-ascii : (c : ℕ) → IsHex c → c < 128
hex-ascii c h = ground arith

module _ ⦃u : Unicode⦄ where
  -- The rune outside ASCII at which a loop stops.
  hex_loop-foreign :
      (n : ℕ) (out s : Bytes)
      → out ≢ []
      → All IsForeign out
      → hex_loop (suc n) (out ++ s) ≡ some false
  unfolding hex_loop
  hex_loop-foreign n [] s h k = absurd (h refl)
  hex_loop-foreign n (c ∷ out) s h (p, k) = ground (arith, foreign-not-hex c p)

  -- The loop reads no further than the text goes, and decides whether the bytes are digits.
  hex_loop-lower :
      (s : Bytes)
      → (b : Bool) × (hex_loop (length s) (lower_from 0 s) ≡ some b) × ((b ≡ true) ↔ All IsHex s)
  unfolding hex_loop lower_from
  hex_loop-lower [] = (true, refl, (λ _. tt, λ _. refl))
  hex_loop-lower (c ∷ s) = elim (Bool-cases (ltb c 128)) [
    | inl ascii ↦ elim (Bool-cases (is_lower_hex (lower_byte c))) [
      | inl hex ↦
          let (b, e, iff) = hex_loop-lower s in
          (b, rw (ascii, hex) e, (λ t. (lower-IsHex c hex, iff.0 t), λ all. iff.1 all.1))
      | inr bad ↦ (false, rw (ascii, bad) refl, (λ t. cc, λ all. cc (hex-lower c all.0)))
    ]
    | inr wide ↦
        let big : 128 ≤ c = ground arith in
        (
          false,
          rw wide (
              hex_loop-foreign (length s) (u.lower_rune (c ∷ s)).0
                (lower_from (u.lower_rune (c ∷ s)).1 s) (u.lower_rune-ne-nil c s big)
                (u.lower_rune-IsForeign c s big)),
          (λ t. cc, λ all. absurd (omega (arith, hex-ascii c all.0))),
        )
  ]

  -- `validateBagID` never indexes out of range, although lower case can change the length of a
  -- text: it returns a Boolean for every text.
  pub validate_bag_id-total :
      (s : Bytes) → (b : Bool) × (validate_bag_id s ≡ some b) × ((b ≡ true) ↔ IsBagId s)
  unfolding validate_bag_id to_lower
  validate_bag_id-total s = elim (Bool-cases (length s == bag_id_length)) [
    | inl e ↦
        let size : length s ≡ 64 = ground arith in
        let (b, p, iff) = hex_loop-lower s in
        (
          b,
          rw e (rw size at p),
          (λ t. record { size = size; digits = iff.0 t }, λ v. iff.1 v.digits),
        )
    | inr e ↦ (false, rw e refl, (λ t. cc, λ v. absurd (ground (arith, v.size))))
  ]
