-- ===== src/Tests/Races.antt =====
-- Requests for one bag at the same time.
use mytonstorage_gateway.Common.{false, refl, some, ℕ, ◌≡◌}
use mytonstorage_gateway.Clients.Remote.Races.{
  Reachable, Shared, at_start, holds, locks_bag, misses_first, misses_second, moves, one_more,
  opens, opens-single, quiet, waits,
}

-- Two requests have missed the bag, and the first one opens the torrent.
abbrev both_missed : Shared
both_missed = record (quiet false) { phase = moves 1 waits (moves 0 waits (quiet false).phase) }

abbrev first_locked : Shared
first_locked = record both_missed { phase = moves 0 holds both_missed.phase; holder = some 0 }

abbrev first_opens : Shared
first_opens = record first_locked { phase = moves 0 opens first_locked.phase }

abbrev first_number : ℕ
first_number = 0

first_opens-Reachable : Reachable first_opens
first_opens-Reachable =
    one_more
      (one_more
        (one_more (one_more (at_start false) (misses_first 0 refl refl)) (misses_first 1 refl refl))
        (locks_bag 0 refl refl))
      (misses_second 0 refl refl)

opens-single_example :
    (first_number ≡ first_number) × (first_opens.holder ≡ some 0) × (first_opens.is_cached ≡ false)
opens-single_example =
    opens-single first_opens first_number first_number first_opens-Reachable refl refl
