-- ===== src/Clients/Remote/Races.antt =====
-- Requests that run `getTorrent` of pkg/clients/remote-ton-storage/client.go for one bag at the same
-- time: its two lookups in the cache, the mutex of the bag, and the cache that may drop the bag
-- between any two steps. Each lookup, the insertion, locking and unlocking is one step. What stands
-- between the second lookup and the insertion or the error (NewTorrent, Start, CreateDownloader), and
-- may block there for long, is the phase `opens`; it changes neither the mutex nor the cache.
use mytonstorage_gateway.Common.{
  Bool, Option, arith, false, if◌then◌else◌, none, refl, some, true, ℕ, ◌==◌, ◌≡◌,
}

-- Where a request is: before the first lookup, after it missed, with the mutex, while it opens the
-- torrent, when only the deferred unlocking is left, and after it has unlocked the mutex or found the
-- torrent at once.
pub data Phase : Type 0 where
  arrives waits holds opens unlocks returned : Phase

-- The requests by number, the owner of the mutex, and whether the bag is in the cache.
pub record Shared : Type 0 where
  pub phase : ℕ → Phase
  pub holder : Option ℕ
  pub is_cached : Bool

-- Request `i` goes to a phase.
abbrev pub moves : ℕ → Phase → (ℕ → Phase) → ℕ → Phase
moves i p phase j = if i == j then p else phase j

pub data TorrentStep : Shared → Shared → Type 0 where
  hits_first :
      {s : Shared} (i : ℕ)
      → s.phase i ≡ arrives
      → s.is_cached ≡ true
      → TorrentStep s (record s { phase = moves i returned s.phase })
  misses_first :
      {s : Shared} (i : ℕ)
      → s.phase i ≡ arrives
      → s.is_cached ≡ false
      → TorrentStep s (record s { phase = moves i waits s.phase })
  locks_bag :
      {s : Shared} (i : ℕ)
      → s.phase i ≡ waits
      → s.holder ≡ none
      → TorrentStep s (record s { phase = moves i holds s.phase; holder = some i })
  hits_second :
      {s : Shared} (i : ℕ)
      → s.phase i ≡ holds
      → s.is_cached ≡ true
      → TorrentStep s (record s { phase = moves i unlocks s.phase })
  misses_second :
      {s : Shared} (i : ℕ)
      → s.phase i ≡ holds
      → s.is_cached ≡ false
      → TorrentStep s (record s { phase = moves i opens s.phase })
  keeps_torrent :
      {s : Shared} (i : ℕ)
      → s.phase i ≡ opens
      → TorrentStep s (record s { phase = moves i unlocks s.phase; is_cached = true })
  gives_up :
      {s : Shared} (i : ℕ)
      → s.phase i ≡ opens
      → TorrentStep s (record s { phase = moves i unlocks s.phase })
  unlocks_bag :
      {s : Shared} (i : ℕ)
      → s.phase i ≡ unlocks
      → TorrentStep s (record s { phase = moves i returned s.phase; holder = none })
  is_evicted : {s : Shared} → TorrentStep s (record s { is_cached = false })

-- No request has come in, and the bag is in the cache or not.
abbrev pub quiet : Bool → Shared
quiet is_cached = record { phase = λ i. arrives; holder = none; is_cached = is_cached }

pub data Reachable : Shared → Type 0 where
  at_start : (is_cached : Bool) → Reachable (quiet is_cached)
  one_more : {s s' : Shared} → Reachable s → TorrentStep s s' → Reachable s'

-- The request has the mutex.
abbrev pub is_inside : Phase → Bool
is_inside arrives = false
is_inside waits = false
is_inside holds = true
is_inside opens = true
is_inside unlocks = true
is_inside returned = false

record IsOwned (s : Shared) : Type 0 where
  owned : (i : ℕ) → is_inside (s.phase i) ≡ true → s.holder ≡ some i
  absent : (i : ℕ) → s.phase i ≡ opens → s.is_cached ≡ false
  held : (i : ℕ) → s.holder ≡ some i → is_inside (s.phase i) ≡ true

step-IsOwned : (s s' : Shared) → IsOwned s → TorrentStep s s' → IsOwned s'
step-IsOwned s _ h (hits_first i p c) = record {
  owned = λ j e. ground (arith, p, c, e, h.owned j);
  absent = λ j e. ground (arith, p, c, e, h.absent j);
  held = λ j e. ground (arith, p, c, e, h.held j, h.held i, h.owned i);
}
step-IsOwned s _ h (misses_first i p c) = record {
  owned = λ j e. ground (arith, p, c, e, h.owned j);
  absent = λ j e. ground (arith, p, c, e, h.absent j);
  held = λ j e. ground (arith, p, c, e, h.held j, h.held i, h.owned i);
}
step-IsOwned s _ h (locks_bag i p c) = record {
  owned = λ j e. ground (arith, p, c, e, h.owned j);
  absent = λ j e. ground (arith, p, c, e, h.absent j);
  held = λ j e. ground (arith, p, c, e, h.held j, h.held i, h.owned i);
}
step-IsOwned s _ h (hits_second i p c) = record {
  owned = λ j e. ground (arith, p, c, e, h.owned j, h.owned i);
  absent = λ j e. ground (arith, p, c, e, h.absent j);
  held = λ j e. ground (arith, p, c, e, h.held j, h.held i, h.owned i);
}
step-IsOwned s _ h (misses_second i p c) = record {
  owned = λ j e. ground (arith, p, c, e, h.owned j, h.owned i);
  absent = λ j e. ground (arith, p, c, e, h.absent j);
  held = λ j e. ground (arith, p, c, e, h.held j, h.held i, h.owned i);
}
step-IsOwned s _ h (keeps_torrent i p) = record {
  owned = λ j e. ground (arith, p, e, h.owned j, h.owned i);
  absent = λ j e. ground (arith, p, e, h.absent j, h.owned j, h.owned i);
  held = λ j e. ground (arith, p, e, h.held j, h.held i, h.owned i);
}
step-IsOwned s _ h (gives_up i p) = record {
  owned = λ j e. ground (arith, p, e, h.owned j, h.owned i);
  absent = λ j e. ground (arith, p, e, h.absent j);
  held = λ j e. ground (arith, p, e, h.held j, h.held i, h.owned i);
}
step-IsOwned s _ h (unlocks_bag i p) = record {
  owned = λ j e. ground (arith, p, e, h.owned j, h.owned i);
  absent = λ j e. ground (arith, p, e, h.absent j);
  held = λ j e. ground (arith, p, e, h.held j, h.held i, h.owned i);
}
step-IsOwned s _ h is_evicted = record { owned = h.owned; absent = λ j e. refl; held = h.held }

Reachable-IsOwned : (s : Shared) → Reachable s → IsOwned s
Reachable-IsOwned _ (at_start is_cached) = record {
  owned = λ i e. ground (arith, e);
  absent = λ i e. ground (arith, e);
  held = λ i e. ground (arith, e);
}
Reachable-IsOwned _ (one_more {s} {s'} r step) = step-IsOwned s s' (Reachable-IsOwned s r) step

-- However the requests for a bag run against one another and against evictions: a request that opens
-- a torrent is the only one that holds the mutex of the bag, and the bag is not in the cache while
-- it does, so no torrent is opened for a bag that the cache has, nor are two opened at a time.
pub opens-single :
    (s : Shared) (i j : ℕ)
    → Reachable s
    → s.phase i ≡ opens
    → is_inside (s.phase j) ≡ true
    → (i ≡ j) × (s.holder ≡ some i) × (s.is_cached ≡ false)
opens-single s i j r opening inside =
    let h = Reachable-IsOwned s r in
    ground (arith, h.owned i, h.owned j, h.absent i, opening, inside)
