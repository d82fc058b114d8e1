-- ===== src/Text/Split.antt =====
-- Splitting at a separator and joining again.
use mytonstorage_gateway.Common.{
  All, All-append, Bool-cases, List, [], arith, false, inl, inr, refl, ℕ, ◌++◌, ◌==◌, ◌∷◌, ◌≡◌, ◌≢◌,
}
use mytonstorage_gateway.Text.{Bytes, cons_head, contains_byte, join, split}

-- The byte does not occur.
abbrev pub Lacks : ℕ → Bytes → Type 0
Lacks c s = All (λ b. b ≢ c) s

module _ (sep : ℕ) where
  pub split-ne-nil : (s : Bytes) → split sep s ≢ []
  unfolding split
  split-ne-nil [] h = cc
  split-ne-nil (c ∷ s) h = ground (arith, split-ne-nil s)

  cons_head-append :
      (c : ℕ) (us vs : List Bytes) → us ≢ [] → cons_head c (us ++ vs) ≡ cons_head c us ++ vs
  cons_head-append c [] vs h = absurd (h refl)
  cons_head-append c (w ∷ us) vs h = refl

  -- Splitting a joined text splits both sides.
  pub split-append : (s t : Bytes) → split sep (s ++ sep ∷ t) ≡ split sep s ++ split sep t
  unfolding split
  split-append [] t = ground arith
  split-append (c ∷ s) t =
      ground
        (arith, split-append s t, cons_head-append c (split sep s) (split sep t) (split-ne-nil s))

  pub split_of_Lacks : (s : Bytes) → Lacks sep s → split sep s ≡ s ∷ []
  unfolding split
  split_of_Lacks [] h = refl
  split_of_Lacks (c ∷ s) (p, h) = ground (arith, split_of_Lacks s h)

  cons_head-Lacks :
      (c : ℕ) (ws : List Bytes) → c ≢ sep → All (Lacks sep) ws → All (Lacks sep) (cons_head c ws)
  cons_head-Lacks c [] p h = ((p, tt), tt)
  cons_head-Lacks c (w ∷ ws) p (k, h) = ((p, k), h)

  -- No part of a split text holds the separator.
  pub split-Lacks : (s : Bytes) → All (Lacks sep) (split sep s)
  unfolding split
  split-Lacks [] = (tt, tt)
  split-Lacks (c ∷ s) = elim (Bool-cases (c == sep)) [
    | inl same ↦ rw same (tt, split-Lacks s)
    | inr other ↦ rw other (cons_head-Lacks c (split sep s) (ground arith) (split-Lacks s))
  ]

  -- Splitting undoes joining, for parts without the separator.
  pub split-join :
      (w : Bytes) (ws : List Bytes)
      → All (Lacks sep) (w ∷ ws)
      → split sep (join (sep ∷ []) (w ∷ ws)) ≡ w ∷ ws
  unfolding join
  split-join w [] (h, _) = split_of_Lacks w h
  split-join w (v ∷ ws) (h, k) = rw (split-append, split_of_Lacks w h, split-join v ws k)

  pub contains_byte-Lacks : (s : Bytes) → contains_byte sep s ≡ false → Lacks sep s
  contains_byte-Lacks [] e = tt
  contains_byte-Lacks (c ∷ s) e = (ground (arith, e), contains_byte-Lacks s (ground (arith, e)))

  -- A joined text holds a byte only from its parts or from the separator.
  pub join-Lacks :
      (b : ℕ) (ws : List Bytes) → b ≢ sep → All (Lacks sep) ws → Lacks sep (join (b ∷ []) ws)
  unfolding join
  join-Lacks b [] p h = tt
  join-Lacks b (w ∷ []) p (h, _) = h
  join-Lacks b (w ∷ v ∷ ws) p (h, hs) =
      All-append (λ c. c ≢ sep) w (b ∷ join (b ∷ []) (v ∷ ws)) h (p, join-Lacks b (v ∷ ws) p hs)
