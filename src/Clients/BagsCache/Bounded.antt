-- ===== src/Clients/BagsCache/Bounded.antt =====
-- The loop of `Set` in pkg/clients/remote-ton-storage/cache.go, and the size of the cache.
use mytonstorage_gateway.Common.{
  All, Bool, List, Option-cases, [], arith, false, if_elim, inl, inr, length, ltb, none, refl, some,
  suc, true, zero, ℕ, ◌+◌, ◌<◌, ◌∷◌, ◌≡◌, ◌≢◌, ◌≤◌, ◌⊎◌,
}
use mytonstorage_gateway.Clients.BagsCache.{
  BagsCache, TorrentEntry, evict, free_all, free_unsafe, oldest_from, put, set_torrent,
}
use mytonstorage_gateway.Dict.{delete, lookup}
use mytonstorage_gateway.Text.{Bytes, Unicode, bytes_eq}
use mytonstorage_gateway.Text.Laws.{bytes_eq_iff, bytes_eq_refl}

module _ {V : Type 0} where
  length-delete_le : (k : Bytes) (m : List (Bytes × V)) → length (delete k m) ≤ length m
  unfolding delete
  length-delete_le k [] = omega arith
  length-delete_le k ((j, v) ∷ m) = ground (arith, length-delete_le k m)

  -- Deleting a key that is there makes the map smaller.
  length-delete_lt :
      (k : Bytes) (m : List (Bytes × V)) → lookup k m ≢ none → length (delete k m) < length m
  unfolding delete lookup
  length-delete_lt k [] h = absurd (h refl)
  length-delete_lt k ((j, v) ∷ m) h =
      ground (arith, length-delete_le k m, length-delete_lt k m, bytes_eq_iff j k, bytes_eq_iff k j)

module _ {T : Type 0} where
  -- The key found is the one given, or one of the map.
  oldest_from-key :
      (key : Bytes) (t : ℕ) (m : List (Bytes × TorrentEntry T))
      → ((oldest_from key t m).0 ≡ key) ⊎ (lookup (oldest_from key t m).0 m ≢ none)
  unfolding oldest_from lookup
  oldest_from-key key t [] = inl refl
  oldest_from-key key t ((k, e) ∷ m) = ground (
    arith,
    oldest_from-key k e.last_used m,
    oldest_from-key key t m,
    bytes_eq_refl k,
    bytes_eq_iff k (oldest_from key t m).0,
  )

  free_unsafe-length :
      (now : ℕ) (bc : BagsCache T)
      → (free_unsafe now bc).0 ≡ true
      → length (free_unsafe now bc).1.cache < length bc.cache
  unfolding free_unsafe evict
  free_unsafe-length now bc h = ground (
    arith,
    oldest_from-key [] now bc.cache,
    length-delete_lt (oldest_from [] now bc.cache).0 bc.cache,
    bytes_eq_iff (oldest_from [] now bc.cache).0 [],
  )

  free_all-Returns :
      (fuel : ℕ) (now : ℕ → ℕ) (n : ℕ) (bc : BagsCache T)
      → length bc.cache < fuel
      → free_all fuel now n bc ≢ none
  unfolding free_all
  free_all-Returns zero now n bc h = absurd (omega (arith, h))
  free_all-Returns (suc fuel) now n bc h = ground (
    arith,
    free_unsafe-length (now n) bc,
    free_all-Returns fuel now (n + 1) (free_unsafe (now n) bc).1,
  )

  -- An entry that the loop may evict: its key is not empty, and it was used before every round.
  abbrev pub IsOld : (ℕ → ℕ) → Bytes × TorrentEntry T → Type 0
  IsOld now (k, e) = (k ≢ []) × ((n : ℕ) → e.last_used < now n)

  oldest_from-ne-nil :
      (now : ℕ → ℕ) (key : Bytes) (t : ℕ) (m : List (Bytes × TorrentEntry T))
      → key ≢ []
      → All (IsOld now) m
      → (oldest_from key t m).0 ≢ []
  unfolding oldest_from
  oldest_from-ne-nil now key t [] h old = h
  oldest_from-ne-nil now key t ((k, e) ∷ m) h ((ne, before_now), old) =
      ground
        (arith, oldest_from-ne-nil now k e.last_used m ne old, oldest_from-ne-nil now key t m h old)

  -- The first round that the entry is compared in finds a key.
  oldest-ne-nil :
      (now : ℕ → ℕ) (n : ℕ) (m : List (Bytes × TorrentEntry T))
      → All (IsOld now) m
      → m ≢ []
      → (oldest_from [] (now n) m).0 ≢ []
  unfolding oldest_from
  oldest-ne-nil now n [] old h = absurd (h refl)
  oldest-ne-nil now n ((k, e) ∷ m) ((ne, before_now), old) h =
      ground (arith, before_now n, oldest_from-ne-nil now k e.last_used m ne old)

  free_unsafe-done :
      (now : ℕ → ℕ) (n : ℕ) (bc : BagsCache T)
      → All (IsOld now) bc.cache
      → (free_unsafe (now n) bc).0 ≡ false
      → length (free_unsafe (now n) bc).1.cache ≤ bc.max_cache_entries
  unfolding free_unsafe
  free_unsafe-done now n bc old h =
      ground (
        arith,
        oldest-ne-nil now n bc.cache old,
        bytes_eq_iff (oldest_from [] (now n) bc.cache).0 [],
      )

  All-delete :
      (P : Bytes × TorrentEntry T → Type 0) (k : Bytes) (m : List (Bytes × TorrentEntry T))
      → All P m
      → All P (delete k m)
  unfolding delete
  All-delete P k [] h = tt
  All-delete P k ((j, e) ∷ m) (p, h) =
      if_elim (All P) (bytes_eq j k) (All-delete P k m h) (p, All-delete P k m h)

  free_unsafe-IsOld :
      (now : ℕ → ℕ) (n : ℕ) (bc : BagsCache T)
      → All (IsOld now) bc.cache
      → All (IsOld now) (free_unsafe (now n) bc).1.cache
  unfolding free_unsafe evict
  free_unsafe-IsOld now n bc old =
      let Kept : Bool × BagsCache T → Type 0 = λ r. All (IsOld now) r.1.cache in
      if_elim Kept (ltb bc.max_cache_entries (length bc.cache))
        (if_elim Kept (bytes_eq (oldest_from [] (now n) bc.cache).0 []) old
          (All-delete (IsOld now) _ bc.cache old))
        old

  free_unsafe-max :
      (now : ℕ) (bc : BagsCache T) → (free_unsafe now bc).1.max_cache_entries ≡ bc.max_cache_entries
  unfolding free_unsafe evict
  free_unsafe-max now bc = ground arith

  free_all-length :
      (fuel : ℕ) (now : ℕ → ℕ) (n : ℕ) (bc bc' : BagsCache T)
      → All (IsOld now) bc.cache
      → free_all fuel now n bc ≡ some bc'
      → length bc'.cache ≤ bc.max_cache_entries
  unfolding free_all
  free_all-length zero now n bc bc' old e = cc
  free_all-length (suc fuel) now n bc bc' old e = ground (
    arith,
    free_unsafe-done now n bc old,
    free_unsafe-max (now n) bc,
    free_all-length fuel now (n + 1) (free_unsafe (now n) bc).1 bc'
        (free_unsafe-IsOld now n bc old),
  )

  module _ ⦃u : Unicode⦄ where
    -- The loop of `Set` ends, whatever the clock reads.
    pub set_torrent-Returns :
        (now : ℕ) (nows : ℕ → ℕ) (bag_id : Bytes) (e : TorrentEntry T) (bc : BagsCache T)
        → set_torrent now nows bag_id e bc ≢ none
    unfolding set_torrent
    set_torrent-Returns now nows bag_id e bc =
        let bc' = put now bag_id e bc in
        ground (arith, free_all-Returns (suc (length bc'.cache)) nows 0 bc' (omega arith))

    -- However many entries there were, `Set` leaves no more than the maximum, if each was used
    -- before the clock is read for the evictions and no bag ID is empty.
    pub set_torrent-bounded :
        (now : ℕ) (nows : ℕ → ℕ) (bag_id : Bytes) (e : TorrentEntry T) (bc bc' : BagsCache T)
        → All (IsOld nows) (put now bag_id e bc).cache
        → set_torrent now nows bag_id e bc ≡ some bc'
        → length bc'.cache ≤ bc.max_cache_entries
    unfolding set_torrent put
    set_torrent-bounded now nows bag_id e bc bc' old p =
        let put_in = put now bag_id e bc in
        elim (Option-cases (free_all (suc (length put_in.cache)) nows 0 put_in)) [
          | inl q ↦ absurd (ground arith)
          | inr (left, q) ↦
              ground (arith, free_all-length (suc (length put_in.cache)) nows 0 put_in left old q)
        ]
