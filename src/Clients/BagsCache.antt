-- ===== src/Clients/BagsCache.antt =====
-- The cache of torrents: pkg/clients/remote-ton-storage/cache.go. A torrent is an opaque value; its
-- mutex makes each method one step. Metrics that are nil are `none`.
pub mod Bounded
pub mod Least
use mytonstorage_gateway.Common.{
  Bool, List, Option, [], false, if◌then◌else◌, length, ltb, negsuc, none, pos, some, suc, true,
  zero, ℕ, ℤ, ◌+◌, ◌∷◌,
}
use mytonstorage_gateway.Dict.{delete, insert, lookup}
use mytonstorage_gateway.Repositories.Coherence.{updated}
use mytonstorage_gateway.Text.{Bytes, Unicode, bytes_eq, to_lower}

-- `torrentCacheEntry`; of the downloader only whether it is nil is looked at.
pub record TorrentEntry (T : Type 0) : Type 0 where
  pub torrent : T
  pub has_downloader : Bool
  pub bag_size : ℕ
  pub last_used : ℕ

-- The counters that the cache moves.
pub record CacheMetrics : Type 0 where
  pub cache_hits : ℕ
  pub cache_misses : ℕ
  pub cache_evicts : ℕ
  pub active_torrents : ℕ

-- `BagsCache`. `stopped` are the torrents that were stopped, and `closed` those whose downloader was
-- closed, the last one first.
pub record BagsCache (T : Type 0) : Type 0 where
  pub cache : List (Bytes × TorrentEntry T)
  pub max_cache_entries : ℕ
  pub metrics : Option CacheMetrics
  pub stopped : List T
  pub closed : List T

abbrev pub count : (CacheMetrics → CacheMetrics) → Option CacheMetrics → Option CacheMetrics
count f none = none
count f (some m) = some (f m)

abbrev pub count_hit : CacheMetrics → CacheMetrics
count_hit m = record m { cache_hits = m.cache_hits + 1 }

module _ {T : Type 0} where
  -- `NewBagsCache`: a maximum that is not positive is 100.
  unfoldable pub new_bags_cache : ℤ → BagsCache T
  new_bags_cache n = record {
    cache = [];
    max_cache_entries = elim n [ pos zero ↦ 100 | pos (suc k) ↦ suc k | negsuc k ↦ 100 ];
    metrics = none;
    stopped = [];
    closed = [];
  }

  -- `WithMetrics`
  unfoldable pub with_metrics : CacheMetrics → BagsCache T → BagsCache T
  with_metrics m bc = record bc { metrics = some m }

  module _ ⦃u : Unicode⦄ where
    unfoldable pub get_torrent : ℕ → Bytes → BagsCache T → Option (T × Bool) × BagsCache T
    get_torrent now bag_id bc = elim (lookup (to_lower bag_id) bc.cache) [
      | none ↦ (
        none,
        record bc {
          metrics = count (λ m. record m { cache_misses = m.cache_misses + 1 }) bc.metrics;
        },
      )
      | some e ↦ (
        some (e.torrent, e.has_downloader),
        record bc {
          cache = insert (to_lower bag_id) (record e { last_used = now }) bc.cache;
          metrics = count count_hit bc.metrics;
        },
      )
    ]

  -- The loop of `freeUnsafe`: the key and the time of the entry used longest ago, before `oldest`.
  unfoldable pub oldest_from : Bytes → ℕ → List (Bytes × TorrentEntry T) → Bytes × ℕ
  oldest_from key oldest [] = (key, oldest)
  oldest_from key oldest ((k, e) ∷ more) =
      oldest_from (if ltb e.last_used oldest then k else key)
        (if ltb e.last_used oldest then e.last_used else oldest) more

  -- The entry is stopped and closed if it has a downloader.
  abbrev pub dropped : Option (TorrentEntry T) → List T → List T
  dropped none l = l
  dropped (some e) l = if e.has_downloader then e.torrent ∷ l else l

  unfoldable pub evict : Bytes → BagsCache T → BagsCache T
  evict key bc = record bc {
    cache = delete key bc.cache;
    metrics = count (λ m. record m { cache_evicts = m.cache_evicts + 1 }) bc.metrics;
    stopped = dropped (lookup key bc.cache) bc.stopped;
    closed = dropped (lookup key bc.cache) bc.closed;
  }

  unfoldable pub free_unsafe : ℕ → BagsCache T → Bool × BagsCache T
  free_unsafe now bc =
      let key = (oldest_from [] now bc.cache).0 in
      if ltb bc.max_cache_entries (length bc.cache)
      then (if bytes_eq key [] then (false, bc) else (true, evict key bc))
      else (false, bc)

  -- The loop of `Set`; its `n`-th round reads the time `now n`. `none`: it did not end within the
  -- fuel.
  unfoldable pub free_all : ℕ → (ℕ → ℕ) → ℕ → BagsCache T → Option (BagsCache T)
  free_all zero now n bc = none
  free_all (suc fuel) now n bc =
      let (updated, bc') = free_unsafe (now n) bc in
      let rest = free_all fuel now (n + 1) bc' in if updated then rest else some bc'

  abbrev pub show_active : BagsCache T → BagsCache T
  show_active bc = record bc {
    metrics = count (λ m. record m { active_torrents = length bc.cache }) bc.metrics;
  }

  abbrev pub shown : Option (BagsCache T) → Option (BagsCache T)
  shown none = none
  shown (some bc) = some (show_active bc)

  module _ ⦃u : Unicode⦄ where
    -- `Set` before the loop.
    unfoldable pub put : ℕ → Bytes → TorrentEntry T → BagsCache T → BagsCache T
    put now bag_id e bc = record bc {
      cache = insert (to_lower bag_id) (record e { last_used = now }) bc.cache;
      metrics = count count_hit bc.metrics;
    }

    -- `Set`: one more round than there are entries is enough for its loop.
    unfoldable pub set_torrent :
        ℕ → (ℕ → ℕ) → Bytes → TorrentEntry T → BagsCache T → Option (BagsCache T)
    set_torrent now nows bag_id e bc =
        let bc' = put now bag_id e bc in shown (free_all (suc (length bc'.cache)) nows 0 bc')

  -- `Clear`; the map's order is that of the list.
  unfoldable pub close_all : List (Bytes × TorrentEntry T) → BagsCache T → BagsCache T
  close_all [] bc = bc
  close_all ((k, e) ∷ more) bc = close_all more (
      if e.has_downloader
      then record bc { metrics = count count_hit bc.metrics; closed = e.torrent ∷ bc.closed }
      else bc)

  unfoldable pub clear : BagsCache T → BagsCache T
  clear bc =
      let bc' = close_all bc.cache bc in
      record bc' { cache = []; metrics = count (λ m. record m { active_torrents = 0 }) bc'.metrics }
