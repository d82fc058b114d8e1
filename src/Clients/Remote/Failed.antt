-- ===== src/Clients/Remote/Failed.antt =====
-- `getTorrent` always returns, and what it leaves behind when it fails.
use mytonstorage_gateway.Common.{
  Bool, List, Option, ap, arith, false, inl, inr, none, refl, some, true, ℕ, ◌+◌, ◌∙◌, ◌∷◌, ◌≡◌,
  ◌≢◌, ◌⊎◌,
}
use mytonstorage_gateway.Clients.BagsCache.{BagsCache, TorrentEntry, get_torrent}
use mytonstorage_gateway.Clients.BagsCache.Bounded.{set_torrent-Returns}
use mytonstorage_gateway.Clients.Remote.{
  Client, Got, Network, decode_hex, get_bag_lock, get_cached, got, new_entry, not_got, set_cached,
  tell,
}
use mytonstorage_gateway.Clients.Remote.Torrents.{
  after_create, after_decode, after_first, after_load, after_second, after_start, creation_failed,
  get_torrent_of, is_creation_timeout,
}
use mytonstorage_gateway.FilePath.{before}
use mytonstorage_gateway.Models.{GoError, Result, err, ok}
use mytonstorage_gateway.Repositories.Measured.{is_some}
use mytonstorage_gateway.Services.Files.Monad.{State, pure, ◌>>=◌, ◌>>◌}
use mytonstorage_gateway.Text.{Bytes, Unicode}

-- The torrents of a world that were made by `NewTorrent` and not stopped, the last one first: what
-- the calls of the client do to them. The calls of other requests are left out, and the torrents that
-- the cache stops, which BagsCache lists.
pub record Ledger (n : Network) : Type 1 where
  pub opened : n.World → List n.Torrent
  pub new_torrent-opened :
      (id : Bytes) (w : n.World) → opened (n.new_torrent id w).1 ≡ (n.new_torrent id w).0 ∷ opened w
  pub stop-opened :
      (t : n.Torrent) (w : n.World) (l : List n.Torrent)
      → opened w ≡ t ∷ l
      → opened (n.stop t w) ≡ l
  pub start-opened : (t : n.Torrent) (w : n.World) → opened (n.start t w).1 ≡ opened w
  pub create_downloader-opened :
      (t : n.Torrent) (w : n.World) → opened (n.create_downloader t w).1 ≡ opened w
  pub clock-opened : (w : n.World) → opened (n.clock w).1 ≡ opened w
  pub lock-opened : (mutex : ℕ) (w : n.World) → opened (n.lock mutex w) ≡ opened w
  pub unlock-opened : (mutex : ℕ) (w : n.World) → opened (n.unlock mutex w) ≡ opened w

module _ (n : Network) (q : Ledger n) where
  abbrev pub opened_of : State (Client n) → List n.Torrent
  opened_of s = q.opened s.world.world

  -- With an error, the torrents that are open are those of before, and so are the entries of the
  -- cache. With a torrent, at most this torrent is open besides.
  pub data Left (before : List n.Torrent)
      (old : List (Bytes × TorrentEntry (n.Torrent × n.Downloader)))
      : Option (Got n × State (Client n)) → Type 0 where
    given :
        {t : n.Torrent} {d : n.Downloader} {s : State (Client n)}
        → (opened_of s ≡ before) ⊎ (opened_of s ≡ t ∷ before)
        → Left before old (some (got t d, s))
    not_opened :
        {t : Option n.Torrent} {e : GoError} {s : State (Client n)}
        → opened_of s ≡ before
        → s.world.bags_cache.cache ≡ old
        → Left before old (some (not_got t e, s))

  module _ ⦃u : Unicode⦄ where
    abbrev pub entries_of :
        State (Client n) → List (Bytes × TorrentEntry (n.Torrent × n.Downloader))
    entries_of s = s.world.bags_cache.cache

    creation_failed-Left :
        (is_late : Bool) (t : n.Torrent) (e : GoError) (s : State (Client n))
        (before : List n.Torrent)
        → opened_of s ≡ before
        → Left before (entries_of s) (creation_failed n is_late t e s)
    unfolding creation_failed
    creation_failed-Left true t e s before h = not_opened h refl
    creation_failed-Left false t e s before h = not_opened h refl

    set_cached-Returns :
        (bag_id : Bytes) (t : n.Torrent) (d : n.Downloader) (s : State (Client n))
        → set_cached n bag_id t d s ≢ none
    unfolding set_cached
    set_cached-Returns bag_id t d s =
        let times = (n.clock s.world.world).0 in
        ground (
          arith,
          set_torrent-Returns (times 0) (λ k. times (k + 1)) bag_id (new_entry n t d s.world)
              s.world.bags_cache,
        )

    set_cached-opened :
        (bag_id : Bytes) (t : n.Torrent) (d : n.Downloader) (s s' : State (Client n)) (x : Unit {0})
        → set_cached n bag_id t d s ≡ some (x, s')
        → opened_of s' ≡ opened_of s
    unfolding set_cached
    set_cached-opened bag_id t d s s' x e = ground (arith, e, q.clock-opened s.world.world)

    then_given :
        (t : n.Torrent) (d : n.Downloader) (result : Option (Unit {0} × State (Client n)))
        (before : List n.Torrent) (old : List (Bytes × TorrentEntry (n.Torrent × n.Downloader)))
        → result ≢ none
        → ((x : Unit {0}) (s' : State (Client n))
            → result ≡ some (x, s')
            → opened_of s' ≡ t ∷ before)
        → (s : State (Client n)) → Left before old (((λ _. result) >> pure (got t d)) s)
    then_given t d none before old h k s = absurd (h refl)
    then_given t d (some (x, s')) before old h k s = given (inr (k x s' refl))

    after_load-Left :
        (loaded : Bool) (bag_id : Bytes) (t : n.Torrent) (d : n.Downloader) (s : State (Client n))
        (before : List n.Torrent)
        → opened_of s ≡ t ∷ before
        → Left before (entries_of s) (after_load n loaded bag_id t d s)
    unfolding after_load
    after_load-Left true bag_id t d s before h =
        then_given t d (set_cached n bag_id t d s) before (entries_of s)
          (set_cached-Returns bag_id t d s) (λ x s' e. set_cached-opened bag_id t d s s' x e ∙ h) s
    after_load-Left false bag_id t d s before h =
        not_opened (q.stop-opened t s.world.world before h) refl

    after_create-Left :
        (created : Result n.Downloader) (bag_id : Bytes) (t : n.Torrent) (s : State (Client n))
        (before : List n.Torrent)
        → opened_of s ≡ t ∷ before
        → Left before (entries_of s) (after_create n created bag_id t s)
    unfolding after_create
    after_create-Left (err e) bag_id t s before h =
        creation_failed-Left (is_creation_timeout e) t e _ before
          (q.stop-opened t s.world.world before h)
    after_create-Left (ok d) bag_id t s before h =
        after_load-Left (n.is_loaded t s.world.world) bag_id t d _ before h

    after_start-Left :
        (started : Option GoError) (bag_id : Bytes) (t : n.Torrent) (s : State (Client n))
        (before : List n.Torrent)
        → opened_of s ≡ t ∷ before
        → Left before (entries_of s) (after_start n started bag_id t s)
    unfolding after_start
    after_start-Left (some e) bag_id t s before h =
        not_opened (q.stop-opened t s.world.world before h) refl
    after_start-Left none bag_id t s before h =
        after_create-Left (n.create_downloader t s.world.world).0 bag_id t _ before
          (q.create_downloader-opened t s.world.world ∙ h)

    after_decode-Left :
        (decoded : Option Bytes) (bag_id : Bytes) (s : State (Client n)) (before : List n.Torrent)
        → opened_of s ≡ before
        → Left before (entries_of s) (after_decode n decoded bag_id s)
    unfolding after_decode
    after_decode-Left none bag_id s before h = not_opened h refl
    after_decode-Left (some id) bag_id s before h =
        let (t, w) = n.new_torrent id s.world.world in
        after_start-Left (n.start t w).0 bag_id t _ before
          (q.start-opened t w ∙ q.new_torrent-opened id s.world.world ∙ ap (λ l. t ∷ l) h)

    after_second-Left :
        (hit : Option ((n.Torrent × n.Downloader) × Bool)) (bag_id : Bytes) (s : State (Client n))
        (before : List n.Torrent) (old : List (Bytes × TorrentEntry (n.Torrent × n.Downloader)))
        → opened_of s ≡ before
        → (hit ≡ none → entries_of s ≡ old)
        → Left before old (after_second n hit bag_id s)
    unfolding after_second
    after_second-Left (some ((t, d), is_some)) bag_id s before old h same = given (inl h)
    after_second-Left none bag_id s before old h same =
        rw (← same refl) (after_decode-Left (decode_hex bag_id) bag_id s before h)

    -- The mutex is released at the end.
    unlocked-Left :
        (mutex : ℕ) (s : State (Client n)) (result : Option (Got n × State (Client n)))
        (before : List n.Torrent) (old : List (Bytes × TorrentEntry (n.Torrent × n.Downloader)))
        → Left before old result
        → Left before old (((λ _. result) >>= (λ r. tell n (n.unlock mutex) >> pure r)) s)
    unlocked-Left mutex s _ before old (given (inl h)) = given (inl (q.unlock-opened mutex _ ∙ h))
    unlocked-Left mutex s _ before old (given (inr h)) = given (inr (q.unlock-opened mutex _ ∙ h))
    unlocked-Left mutex s _ before old (not_opened h e) = not_opened (q.unlock-opened mutex _ ∙ h) e

    -- A lookup that misses leaves the entries.
    missed :
        (now : ℕ) (bag_id : Bytes) (bc : BagsCache (n.Torrent × n.Downloader))
        → (get_torrent now bag_id bc).0 ≡ none
        → (get_torrent now bag_id bc).1.cache ≡ bc.cache
    unfolding get_torrent
    missed now bag_id bc h = ground arith

    after_first-Left :
        (hit : Option ((n.Torrent × n.Downloader) × Bool)) (bag_id : Bytes) (s : State (Client n))
        (before : List n.Torrent) (old : List (Bytes × TorrentEntry (n.Torrent × n.Downloader)))
        → opened_of s ≡ before
        → (hit ≡ none → entries_of s ≡ old)
        → Left before old (after_first n hit bag_id s)
    unfolding after_first get_cached
    after_first-Left (some ((t, d), is_some)) bag_id s before old h same = given (inl h)
    after_first-Left none bag_id s before old h same =
        let (mutex, locks) = get_bag_lock n bag_id s.locks in
        let (times, w) = n.clock (n.lock mutex s.world.world) in
        unlocked-Left mutex s
          (after_second n (get_torrent (times 0) bag_id s.world.bags_cache).0 bag_id _) before old
          (after_second-Left (get_torrent (times 0) bag_id s.world.bags_cache).0 bag_id _ before old
            (q.clock-opened _ ∙ q.lock-opened mutex s.world.world ∙ h)
            (λ e. missed (times 0) bag_id s.world.bags_cache e ∙ same refl))

    -- `getTorrent` returns a torrent or an error. With an error, from any of its steps, the torrents
    -- that are open are those of before: one that it has made itself is stopped; and the entries of the
    -- cache are those of before. With a torrent, the torrents that are open are those of before, or
    -- this one besides. The torrents that the cache stops, when it drops entries to keep to its size,
    -- are left out of that account.
    pub get_torrent_of-Left :
        (bag_id : Bytes) (s : State (Client n))
        → Left (opened_of s) (entries_of s) (get_torrent_of n bag_id s)
    unfolding get_torrent_of get_cached
    get_torrent_of-Left bag_id s =
        let (times, w) = n.clock s.world.world in
        after_first-Left (get_torrent (times 0) bag_id s.world.bags_cache).0 bag_id _ (opened_of s)
          (entries_of s) (q.clock-opened s.world.world) (missed (times 0) bag_id s.world.bags_cache)
