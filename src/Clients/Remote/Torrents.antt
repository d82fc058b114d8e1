-- ===== src/Clients/Remote/Torrents.antt =====
-- `getTorrent` of pkg/clients/remote-ton-storage/client.go: the torrent of a bag, from the cache or
-- opened under the mutex of the bag.
use mytonstorage_gateway.Common.{Bool, Option, false, none, some, true, ◌||◌}
use mytonstorage_gateway.Clients.Remote.{
  Client, Got, Network, ask, count_one, decode_hex, downloader_creation, get_bag_lock, get_cached,
  got, look, not_got, set_cached, store_torrent, tell,
}
use mytonstorage_gateway.Models.{
  GoError, Result, err, err_timeout, error_text, is_deadline, ok, plain_error, wrap,
}
use mytonstorage_gateway.Repositories.Measured.{is_some}
use mytonstorage_gateway.Services.Files.Monad.{M, act, on_locks, pure, ◌>>=◌, ◌>>◌}
use mytonstorage_gateway.Text.{Bytes, Unicode, contains, text}

-- `errors.Is(err, context.DeadlineExceeded) || strings.Contains(err.Error(), "timeout")`
unfoldable pub is_creation_timeout : GoError → Bool
is_creation_timeout e = is_deadline e || contains (error_text e) (text "timeout")

module _ (n : Network) where
  -- The downloader was not created: the label that is counted, and the error that is returned.
  unfoldable pub creation_failed : Bool → n.Torrent → GoError → M (Client n) (Got n)
  creation_failed true t e = do
    count_one n (downloader_creation (text "timeout"))
    pure (not_got (some t) err_timeout)
  creation_failed false t e = do
    count_one n (downloader_creation (text "error"))
    pure (not_got (some t) (wrap (text "failed to create downloader: ") e))

  module _ ⦃u : Unicode⦄ where
    -- The end of `getTorrent`: whether header and info are there.
    unfoldable pub after_load : Bool → Bytes → n.Torrent → n.Downloader → M (Client n) (Got n)
    after_load true bag_id t d = do set_cached n bag_id t d; pure (got t d)
    after_load false bag_id t d = do
      tell n (n.stop t)
      pure (not_got (some t) (plain_error (text "torrent header or info not loaded")))

    unfoldable pub after_create : Result n.Downloader → Bytes → n.Torrent → M (Client n) (Got n)
    after_create (err e) bag_id t = do
      tell n (n.stop t)
      creation_failed (is_creation_timeout e) t e
    after_create (ok d) bag_id t = do
      count_one n (downloader_creation (text "success"))
      loaded ← look n (n.is_loaded t)
      after_load loaded bag_id t d

    unfoldable pub after_start : Option GoError → Bytes → n.Torrent → M (Client n) (Got n)
    after_start (some e) bag_id t = do
      tell n (n.stop t)
      pure (not_got (some t) (wrap (text "failed to start torrent: ") e))
    after_start none bag_id t = do
      created ← ask n (n.create_downloader t)
      after_create created bag_id t

    -- The torrent with the ID that the hexadecimal digits say.
    unfoldable pub after_decode : Option Bytes → Bytes → M (Client n) (Got n)
    after_decode none bag_id =
        pure (not_got none (wrap (text "invalid bag id hex: ") (n.hex_error bag_id)))
    after_decode (some id) bag_id = do
      t ← ask n (n.new_torrent id)
      act (λ c. record c { store = store_torrent n t c.store })
      started ← ask n (n.start t)
      after_start started bag_id t

    -- After the second lookup, under the mutex of the bag.
    unfoldable pub after_second :
        Option ((n.Torrent × n.Downloader) × Bool) → Bytes → M (Client n) (Got n)
    after_second (some ((t, d), is_some)) bag_id = pure (got t d)
    after_second none bag_id = after_decode (decode_hex bag_id) bag_id

    unfoldable pub after_first :
        Option ((n.Torrent × n.Downloader) × Bool) → Bytes → M (Client n) (Got n)
    after_first (some ((t, d), is_some)) bag_id = pure (got t d)
    after_first none bag_id = do
      mutex ← on_locks (get_bag_lock n bag_id)
      tell n (n.lock mutex)
      hit ← get_cached n bag_id
      result ← after_second hit bag_id
      tell n (n.unlock mutex)
      pure result

    -- `getTorrent`
    unfoldable pub get_torrent_of : Bytes → M (Client n) (Got n)
    get_torrent_of bag_id = do hit ← get_cached n bag_id; after_first hit bag_id
