-- ===== src/Text/Lower.antt =====
-- Lower case.
use mytonstorage_gateway.Common.{All, [], arith, map, refl, ◌++◌, ◌<◌, ◌∷◌, ◌≡◌}
use mytonstorage_gateway.Text.{Bytes, Unicode, lower_byte, to_lower}

abbrev pub IsAscii : Bytes → Type 0
IsAscii s = All (λ c. c < 128) s

module _ ⦃u : Unicode⦄ where
  -- On ASCII text every byte is lowered on its own.
  pub to_lower_of_IsAscii : (s : Bytes) → IsAscii s → to_lower s ≡ map lower_byte s
  unfolding to_lower
  to_lower_of_IsAscii [] h = refl
  to_lower_of_IsAscii (c ∷ s) (p, h) = ground (arith, to_lower_of_IsAscii s h)

  -- ASCII text in front is lowered on its own.
  pub to_lower-append :
      (s t : Bytes) → IsAscii s → to_lower (s ++ t) ≡ map lower_byte s ++ to_lower t
  unfolding to_lower
  to_lower-append [] t h = refl
  to_lower-append (c ∷ s) t (p, h) = ground (arith, to_lower-append s t h)
