-- ===== src/Clients/BagsCache/Least.antt =====
-- The entry that `freeUnsafe` of pkg/clients/remote-ton-storage/cache.go evicts.
use mytonstorage_gateway.Common.{
  All, All-imp, List, Option, [], arith, if◌then◌else◌, inl, ltb, none, refl, some, true, ℕ, ◌∷◌,
  ◌≡◌, ◌≤◌, ◌⊎◌,
}
use mytonstorage_gateway.Clients.BagsCache.{
  BagsCache, TorrentEntry, evict, free_unsafe, oldest_from,
}
use mytonstorage_gateway.Dict.{IsMap, delete, lookup}
use mytonstorage_gateway.Text.{Bytes}
use mytonstorage_gateway.Text.Laws.{bytes_eq_iff, bytes_eq_refl}

module _ {T : Type 0} where
  -- The least time of use is found, and it is that of the entry at the key.
  oldest_from-least :
      (key : Bytes) (t : ℕ) (m : List (Bytes × TorrentEntry T))
      → ((oldest_from key t m).1 ≤ t) × All (λ p. (oldest_from key t m).1 ≤ p.1.last_used) m
  unfolding oldest_from
  oldest_from-least key t [] = (omega arith, tt)
  oldest_from-least key t ((k, e) ∷ m) =
      let (low, lows) =
        oldest_from-least (if ltb e.last_used t then k else key)
          (if ltb e.last_used t then e.last_used else t) m in
      (ground arith, (ground arith, lows))

  abbrev used_at : Option (TorrentEntry T) → Option ℕ
  used_at none = none
  used_at (some e) = some e.last_used

  oldest_from-found :
      (key : Bytes) (t : ℕ) (m : List (Bytes × TorrentEntry T))
      → IsMap m
      → (((oldest_from key t m).0 ≡ key) × ((oldest_from key t m).1 ≡ t))
        ⊎ (used_at (lookup (oldest_from key t m).0 m) ≡ some (oldest_from key t m).1)
  unfolding oldest_from lookup
  oldest_from-found key t [] h = inl (refl, refl)
  oldest_from-found key t ((k, e) ∷ m) (new, once) = ground (
    arith,
    oldest_from-found k e.last_used m once,
    oldest_from-found key t m once,
    bytes_eq_refl k,
    bytes_eq_iff k (oldest_from k e.last_used m).0,
    bytes_eq_iff k (oldest_from key t m).0,
  )

  -- What was evicted: an entry of the cache, none of whose others was used earlier.
  pub record IsEvicted (old new : List (Bytes × TorrentEntry T)) : Type 0 where
    pub key : Bytes
    pub evicted : TorrentEntry T
    pub there : lookup key old ≡ some evicted
    pub others : new ≡ delete key old
    pub least : All (λ p. evicted.last_used ≤ p.1.last_used) old

  -- An eviction from a cache with each key once takes an entry that no other was used before.
  pub free_unsafe-IsEvicted :
      (now : ℕ) (bc : BagsCache T)
      → IsMap bc.cache
      → (free_unsafe now bc).0 ≡ true
      → IsEvicted bc.cache (free_unsafe now bc).1.cache
  unfolding free_unsafe evict
  free_unsafe-IsEvicted now bc h e = go (lookup key bc.cache) refl
    where
      key : Bytes
      key = (oldest_from [] now bc.cache).0

      go :
          (hit : Option (TorrentEntry T))
          → lookup key bc.cache ≡ hit
          → IsEvicted bc.cache (free_unsafe now bc).1.cache
      go none found =
          absurd (ground (arith, oldest_from-found [] now bc.cache h, bytes_eq_iff key []))
      go (some x) found = record {
        key = key;
        evicted = x;
        there = found;
        others = ground (arith, bytes_eq_iff key []);
        least = All-imp _ _ (λ p le. same le) bc.cache (oldest_from-least [] now bc.cache).1;
      }
        where
          same : {n : ℕ} → (oldest_from [] now bc.cache).1 ≤ n → x.last_used ≤ n
          same le = ground (arith, oldest_from-found [] now bc.cache h, bytes_eq_iff key [])
