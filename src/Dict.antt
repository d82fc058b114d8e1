-- ===== src/Dict.antt =====
-- Go maps with string keys, as association lists without an order that matters.
use mytonstorage_gateway.Common.{
  Bool, Bool-cases, List, Option, [], arith, if_elim, if◌then◌else◌, inl, inr, none, refl, some,
  ◌∷◌, ◌≡◌,
}
use mytonstorage_gateway.Text.{Bytes, bytes_eq}
use mytonstorage_gateway.Text.Laws.{bytes_eq_iff, bytes_eq_refl}

module _ {ℓ} {V : Type ℓ} where
  -- `v, ok := m[k]`
  unfoldable pub lookup : Bytes → List (Bytes × V) → Option V
  lookup k [] = none
  lookup k ((j, v) ∷ m) = if bytes_eq j k then some v else lookup k m

  -- `delete(m, k)`
  unfoldable pub delete : Bytes → List (Bytes × V) → List (Bytes × V)
  delete k [] = []
  delete k ((j, v) ∷ m) = let rest = delete k m in if bytes_eq j k then rest else (j, v) ∷ rest

  -- `m[k] = v`
  unfoldable pub insert : Bytes → V → List (Bytes × V) → List (Bytes × V)
  insert k v [] = (k, v) ∷ []
  insert k v ((j, w) ∷ m) = if bytes_eq j k then (k, v) ∷ m else (j, w) ∷ insert k v m

  -- The entries of which `keep` holds.
  unfoldable pub keep_if : (V → Bool) → List (Bytes × V) → List (Bytes × V)
  keep_if keep [] = []
  keep_if keep ((j, v) ∷ m) = let rest = keep_if keep m in if keep v then (j, v) ∷ rest else rest

  pub lookup-insert :
      (k j : Bytes) (v : V) (m : List (Bytes × V))
      → lookup j (insert k v m) ≡ (if bytes_eq k j then some v else lookup j m)
  unfolding lookup insert
  lookup-insert k j v [] = refl
  lookup-insert k j v ((i, w) ∷ m) =
      ground (arith, bytes_eq_iff k j, bytes_eq_iff i k, bytes_eq_iff i j, lookup-insert k j v m)

  pub lookup-delete :
      (k j : Bytes) (m : List (Bytes × V))
      → lookup j (delete k m) ≡ (if bytes_eq k j then none else lookup j m)
  unfolding lookup delete
  lookup-delete k j [] = ground arith
  lookup-delete k j ((i, w) ∷ m) =
      ground (arith, bytes_eq_iff k j, bytes_eq_iff i k, bytes_eq_iff i j, lookup-delete k j m)

  -- Every key stands once.
  abbrev pub IsMap : List (Bytes × V) → Type ℓ
  IsMap [] = Unit
  IsMap ((j, v) ∷ m) = (lookup j m ≡ none) × IsMap m

  pub lookup_self-insert :
      (k : Bytes) (v : V) (m : List (Bytes × V)) → lookup k (insert k v m) ≡ some v
  lookup_self-insert k v m = rw (lookup-insert, bytes_eq_refl k) refl

  pub insert-IsMap : (k : Bytes) (v : V) (m : List (Bytes × V)) → IsMap m → IsMap (insert k v m)
  unfolding insert
  insert-IsMap k v [] h = unfold lookup in (refl, tt)
  insert-IsMap k v ((j, w) ∷ m) (h, hs) = elim (Bool-cases (bytes_eq j k)) [
    | inl same ↦ rw same (rw ((bytes_eq_iff j k).0 same) at h, hs)
    | inr new ↦ rw new (
      ground (arith, lookup-insert k j v m, bytes_eq_iff j k, bytes_eq_iff k j),
      insert-IsMap k v m hs,
    )
  ]

  lookup-keep_if-none :
      (keep : V → Bool) (k : Bytes) (m : List (Bytes × V))
      → lookup k m ≡ none
      → lookup k (keep_if keep m) ≡ none
  unfolding lookup keep_if
  lookup-keep_if-none keep k [] h = refl
  lookup-keep_if-none keep k ((j, v) ∷ m) h = ground (arith, lookup-keep_if-none keep k m)

  pub delete-IsMap : (k : Bytes) (m : List (Bytes × V)) → IsMap m → IsMap (delete k m)
  unfolding delete
  delete-IsMap k [] h = tt
  delete-IsMap k ((j, w) ∷ m) (h, hs) = elim (Bool-cases (bytes_eq j k)) [
    | inl same ↦ rw same (delete-IsMap k m hs)
    | inr new ↦ rw new (ground (arith, lookup-delete k j m), delete-IsMap k m hs)
  ]

  pub keep_if-IsMap : (keep : V → Bool) (m : List (Bytes × V)) → IsMap m → IsMap (keep_if keep m)
  unfolding keep_if
  keep_if-IsMap keep [] h = tt
  keep_if-IsMap keep ((j, v) ∷ m) (h, hs) =
      if_elim IsMap (keep v) (lookup-keep_if-none keep j m h, keep_if-IsMap keep m hs)
        (keep_if-IsMap keep m hs)

  -- The entry at a key, if it is to be kept.
  abbrev pub kept : (V → Bool) → Option V → Option V
  kept keep none = none
  kept keep (some v) = if keep v then some v else none

  pub lookup-keep_if :
      (keep : V → Bool) (k : Bytes) (m : List (Bytes × V))
      → IsMap m
      → lookup k (keep_if keep m) ≡ kept keep (lookup k m)
  unfolding lookup keep_if
  lookup-keep_if keep k [] h = refl
  lookup-keep_if keep k ((j, v) ∷ m) (h, hs) =
      ground (arith, bytes_eq_iff j k, lookup-keep_if keep k m hs, lookup-keep_if-none keep j m h)
