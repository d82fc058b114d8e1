-- ===== src/Text/Laws.antt =====
-- Equality and order of Go strings.
use mytonstorage_gateway.Common.{==_iff, [], arith, false, refl, some, true, ◌++◌, ◌↔◌, ◌∷◌, ◌≡◌}
use mytonstorage_gateway.Text.{Bytes, bytes_eq, bytes_lt, cut_prefix}

bytes_eq→eq : (s t : Bytes) → bytes_eq s t ≡ true → s ≡ t
bytes_eq→eq [] [] h = refl
bytes_eq→eq [] (b ∷ t) h = cc
bytes_eq→eq (a ∷ s) [] h = cc
bytes_eq→eq (a ∷ s) (b ∷ t) h = ground (arith, ==_iff a b, bytes_eq→eq s t)

pub bytes_eq_refl : (s : Bytes) → bytes_eq s s ≡ true
bytes_eq_refl [] = refl
bytes_eq_refl (a ∷ s) = ground (arith, bytes_eq_refl s)

eq→bytes_eq : (s t : Bytes) → s ≡ t → bytes_eq s t ≡ true
eq→bytes_eq s t h = rw h (bytes_eq_refl t)

pub bytes_eq_iff : (s t : Bytes) → (bytes_eq s t ≡ true) ↔ (s ≡ t)
bytes_eq_iff s t = (bytes_eq→eq s t, eq→bytes_eq s t)

pub bytes_lt_irrefl : (s : Bytes) → bytes_lt s s ≡ false
unfolding bytes_lt
bytes_lt_irrefl [] = refl
bytes_lt_irrefl (a ∷ s) = ground (arith, bytes_lt_irrefl s)

pub bytes_lt_trans :
    (s t r : Bytes) → bytes_lt s t ≡ true → bytes_lt t r ≡ true → bytes_lt s r ≡ true
unfolding bytes_lt
bytes_lt_trans s [] r h k = cc
bytes_lt_trans s (b ∷ t) [] h k = cc
bytes_lt_trans [] (b ∷ t) (c ∷ r) h k = refl
bytes_lt_trans (a ∷ s) (b ∷ t) (c ∷ r) h k = ground (arith, bytes_lt_trans s t r)

-- Two texts, neither below the other, are equal.
pub bytes_lt_connected : (s t : Bytes) → bytes_lt s t ≡ false → bytes_lt t s ≡ false → s ≡ t
unfolding bytes_lt
bytes_lt_connected [] [] h k = refl
bytes_lt_connected [] (b ∷ t) h k = cc
bytes_lt_connected (a ∷ s) [] h k = cc
bytes_lt_connected (a ∷ s) (b ∷ t) h k = ground (arith, bytes_lt_connected s t)

pub bytes_lt_asymm : (s t : Bytes) → bytes_lt s t ≡ true → bytes_lt t s ≡ false
unfolding bytes_lt
bytes_lt_asymm s [] h = cc
bytes_lt_asymm [] (b ∷ t) h = refl
bytes_lt_asymm (a ∷ s) (b ∷ t) h = ground (arith, bytes_lt_asymm s t)

-- A prefix that is cut off is where the text begins.
pub cut_prefix_append : (s p r : Bytes) → cut_prefix s p ≡ some r → s ≡ p ++ r
unfolding cut_prefix
cut_prefix_append s [] r h = cc
cut_prefix_append [] (b ∷ p) r h = cc
cut_prefix_append (a ∷ s) (b ∷ p) r h = ground (arith, ==_iff a b, cut_prefix_append s p r)

pub cut_prefix-append : (p r : Bytes) → cut_prefix (p ++ r) p ≡ some r
unfolding cut_prefix
cut_prefix-append [] [] = refl
cut_prefix-append [] (a ∷ r) = refl
cut_prefix-append (b ∷ p) r = ground (arith, cut_prefix-append p r)
