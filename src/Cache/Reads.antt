-- ===== src/Cache/Reads.antt =====
-- The cache of pkg/cache/simple.go through what can be read from it.
use mytonstorage_gateway.Common.{
  List, Option, [], arith, if◌then◌else◌, inl, inr, leb, none, refl, some, sym, ℕ, ◌+◌, ◌∙◌, ◌∷◌,
  ◌≡◌, ◌≤◌, ◌⊎◌,
}
use mytonstorage_gateway.Cache.{
  Item, SimpleCache, cleanup, get, get_all, is_live, live_items, release, set,
}
use mytonstorage_gateway.Dict.{
  IsMap, delete, delete-IsMap, insert-IsMap, keep_if, keep_if-IsMap, lookup, lookup-delete,
  lookup-insert, lookup-keep_if,
}
use mytonstorage_gateway.Text.{Bytes, bytes_eq}
use mytonstorage_gateway.Text.Laws.{bytes_eq_iff}

module _ {ℓ} {V : Type ℓ} where
  -- What a `Get` of the key returns at that time: the abstract view of a cache.
  abbrev pub reads : SimpleCache V → ℕ → Bytes → Option V
  reads c now key = (get now key c).0

  abbrev pub IsValid : SimpleCache V → Type ℓ
  IsValid c = IsMap c.items

  -- The value of an entry, if it has not expired.
  abbrev pub value_at : ℕ → Option (Item V) → Option V
  value_at now none = none
  value_at now (some it) = if is_live now it then some it.value else none

  reads_lem :
      (c : SimpleCache V) (now : ℕ) (key : Bytes)
      → reads c now key ≡ value_at now (lookup key c.items)
  unfolding get
  reads_lem c now key = ground arith

  -- A value that was set is read until its time to live has passed, and not later; no other key is
  -- touched.
  pub reads-set :
      (c : SimpleCache V) (now later : ℕ) (key k : Bytes) (v : V)
      → reads (set now key v c) later k ≡ (
          if bytes_eq key k
          then (if leb later (now + c.ttl) then some v else none)
          else reads c later k)
  unfolding set
  reads-set c now later key k v = simp reads_lem (rw lookup-insert (ground arith))

  -- What a `Get` leaves at a key is what was there, if that has not expired.
  read_items :
      (c : SimpleCache V) (now later : ℕ) (key k : Bytes)
      → now ≤ later
      → value_at later (lookup k (get now key c).1.items) ≡ value_at later (lookup k c.items)
  unfolding get
  read_items c now later key k h = ground (arith, lookup-delete key k c.items, bytes_eq_iff key k)

  -- A `Get` may delete an entry, but changes nothing that a later `Get` reads.
  pub reads-get :
      (c : SimpleCache V) (now later : ℕ) (key k : Bytes)
      → now ≤ later
      → reads (get now key c).1 later k ≡ reads c later k
  reads-get c now later key k h =
      rw (reads_lem c later k)
        (rw (reads_lem (get now key c).1 later k) (read_items c now later key k h))

  release-delete :
      (c : SimpleCache V) (now : ℕ) (key : Bytes)
      → (release now key c).1 ≡ record c { items = delete key c.items }
  unfolding release
  release-delete c now key = ground arith

  release-reads :
      (c : SimpleCache V) (now : ℕ) (key : Bytes) → (release now key c).0 ≡ reads c now key
  unfolding release get
  release-reads c now key = ground arith

  reads-delete :
      (c : SimpleCache V) (later : ℕ) (key k : Bytes)
      → reads (record c { items = delete key c.items }) later k
        ≡ (if bytes_eq key k then none else reads c later k)
  reads-delete c later key k = simp reads_lem (rw lookup-delete (ground arith))

  -- A `Release` returns what a `Get` would, and then the key is gone; no other key is touched.
  pub reads-release :
      (c : SimpleCache V) (now later : ℕ) (key k : Bytes)
      → ((release now key c).0 ≡ reads c now key)
        × (reads (release now key c).1 later k ≡ (if bytes_eq key k then none else reads c later k))
  reads-release c now later key k =
      (release-reads c now key, rw (release-delete c now key) (reads-delete c later key k))

  -- A tick of the cleanup of a cache with each key once is not seen by any later `Get`.
  pub reads-cleanup :
      (c : SimpleCache V) (now later : ℕ) (k : Bytes)
      → IsValid c
      → now ≤ later
      → reads (cleanup now c) later k ≡ reads c later k
  unfolding cleanup
  reads-cleanup c now later k valid h = ground (
    arith,
    reads_lem (record c { items = keep_if (is_live now) c.items }) later k,
    reads_lem c later k,
    lookup-keep_if (is_live now) k c.items valid,
  )

  lookup-live_items :
      (now : ℕ) (k : Bytes) (items : List (Bytes × Item V)) (v : V)
      → IsMap items
      → lookup k (live_items now items) ≡ some v
      → value_at now (lookup k items) ≡ some v
  unfolding lookup
  lookup-live_items now k [] v h e = cc
  lookup-live_items now k ((j, it) ∷ items) v (h, hs) e =
      ground (arith, bytes_eq_iff j k, lookup-live_items now k items v hs)

  -- A value that `GetAll` copies is the one that `Get` reads at that time.
  pub reads-get_all :
      (c : SimpleCache V) (now : ℕ) (k : Bytes) (v : V)
      → IsValid c
      → lookup k (get_all now c) ≡ some v
      → reads c now k ≡ some v
  unfolding get_all
  reads-get_all c now k v valid e = reads_lem c now k ∙ lookup-live_items now k c.items v valid e

  -- The keys stay distinct under every method.
  pub set-IsValid :
      (c : SimpleCache V) (now : ℕ) (key : Bytes) (v : V) → IsValid c → IsValid (set now key v c)
  unfolding set
  set-IsValid c now key v h = insert-IsMap key _ c.items h

  pub release-IsValid :
      (c : SimpleCache V) (now : ℕ) (key : Bytes) → IsValid c → IsValid (release now key c).1
  release-IsValid c now key h = rw (release-delete c now key) (delete-IsMap key c.items h)

  pub cleanup-IsValid : (c : SimpleCache V) (now : ℕ) → IsValid c → IsValid (cleanup now c)
  unfolding cleanup
  cleanup-IsValid c now h = keep_if-IsMap (is_live now) c.items h

  get-items :
      (c : SimpleCache V) (now : ℕ) (key : Bytes)
      → ((get now key c).1.items ≡ c.items) ⊎ ((get now key c).1.items ≡ delete key c.items)
  unfolding get
  get-items c now key = ground arith

  pub get-IsValid :
      (c : SimpleCache V) (now : ℕ) (key : Bytes) → IsValid c → IsValid (get now key c).1
  get-IsValid c now key h = elim (get-items c now key) [
    | inl e ↦ rw e h
    | inr e ↦ rw e (delete-IsMap key c.items h)
  ]

  -- A `Get` adds nothing that could be read, at any time.
  pub reads-get-some :
      (c : SimpleCache V) (now t : ℕ) (key k : Bytes) (v : V)
      → reads (get now key c).1 t k ≡ some v
      → reads c t k ≡ some v
  reads-get-some c now t key k v e = elim (get-items c now key) [
    | inl p ↦ reads_lem c t k ∙ (rw p at (sym (reads_lem (get now key c).1 t k) ∙ e))
    | inr p ↦
        reads_lem c t k
        ∙ ground (
          arith,
          lookup-delete key k c.items,
          rw p at (sym (reads_lem (get now key c).1 t k) ∙ e),
        )
  ]

  -- The time to live is never changed.
  pub set-ttl : (c : SimpleCache V) (now : ℕ) (key : Bytes) (v : V) → (set now key v c).ttl ≡ c.ttl
  unfolding set
  set-ttl c now key v = refl

  pub get-ttl : (c : SimpleCache V) (now : ℕ) (key : Bytes) → (get now key c).1.ttl ≡ c.ttl
  unfolding get
  get-ttl c now key = ground arith
