-- ===== src/Tests/Remote.antt =====
-- A small network, and the clients over it.
use mathlib.Core.List.{reverse}
use mytonstorage_gateway.Common.{
  List, Option, [], ap, arith, false, if◌then◌else◌, leb, none, refl, some, suc, true, zero, ℕ, ◌+◌,
  ◌==◌, ◌∷◌, ◌≡◌,
}
use mytonstorage_gateway.Clients.BagsCache.{CacheMetrics}
use mytonstorage_gateway.Clients.Remote.{Client, FileInfo, Network, got}
use mytonstorage_gateway.Clients.Remote.Content.{IsPlaced, pieces_from}
use mytonstorage_gateway.Clients.Remote.Delivered.{IsServed}
use mytonstorage_gateway.Clients.Remote.Failed.{Ledger, Left, get_torrent_of-Left}
use mytonstorage_gateway.Clients.Remote.Metered.{
  IsAccounted, closes_stream, is_closed_by, new_metered_stream, reads_bytes, total_read, use_stream,
  use_stream-IsAccounted,
}
use mytonstorage_gateway.Clients.Remote.Opened.{Faults, close, close-reverse, new_client, new_state}
use mytonstorage_gateway.Clients.Remote.Stream.{after_torrent}
use mytonstorage_gateway.Clients.Remote.Streams.{Streams, after_torrent-Streams}
use mytonstorage_gateway.Clients.Remote.Torrents.{get_torrent_of}
use mytonstorage_gateway.HttpServer.Copied.{Round}
use mytonstorage_gateway.IframeWrap.{sandbox, wrap_html}
use mytonstorage_gateway.IframeWrap.Confined.{value_of, wrap_html-IsConfined}
use mytonstorage_gateway.Models.{err, err_deadline, ok, plain_error, wrap}
use mytonstorage_gateway.Services.Files.{BagInfo}
use mytonstorage_gateway.Services.Files.Monad.{State}
use mytonstorage_gateway.Tests.Sample.{plain_unicode}
use mytonstorage_gateway.Text.{Bytes, contains, text}

abbrev sample_piece : ℕ → Bytes
sample_piece zero = text "abcd"
sample_piece (suc zero) = text "efgh"
sample_piece (suc (suc p)) = text "ij"

abbrev sample_file : FileInfo
sample_file = record {
  index = 0;
  name = text "a.txt";
  size = 5;
  from_piece = 0;
  to_piece = 1;
  from_piece_offset = 2;
  to_piece_offset = 3;
}

-- Two files, of which only the first can be looked up by its path; a torrent is its ID, and the
-- world is a number that the clock moves.
abbrev sample_network : Network
sample_network = record {
  World = ℕ;
  Torrent = Bytes;
  Downloader = Unit {0};
  Fetcher = Unit {0};
  clock = λ w. (λ k. w + k, w + 10);
  lock = λ m w. w;
  unlock = λ m w. w;
  hex_error = λ s. plain_error (text "encoding/hex");
  overlay_hash = λ id. ok (0 ∷ id);
  new_torrent = λ id w. (id, w);
  bag_id = λ t. t;
  start = λ t w. (none, w);
  stop = λ t w. w;
  get_peers = λ t w. 3;
  is_loaded = λ t w. true;
  files_count = λ t w. 2;
  file_size = λ t w. 10;
  description = λ t w. text "sample";
  get_file_offsets_by_id = λ t i w. ok (record sample_file { index = i });
  get_file_offsets = λ t path w. ok sample_file;
  create_downloader = λ t w. (ok tt, w);
  new_pre_fetcher = λ t d ps w. (tt, w);
  get_piece = λ f p w. (ok (sample_piece p), w);
  stop_fetcher = λ f w. w;
  cancelled = λ w. (none, w);
  write = λ part w. (none, w);
}

abbrev late_network : Network
late_network = record sample_network {
  create_downloader = λ t w. (err (wrap (text "dht: ") err_deadline), w);
}

abbrev no_metrics : Option CacheMetrics
no_metrics = none

abbrev fresh : (n : Network) → n.World → State (Client n)
fresh n w =
    new_state n
      (record { cache = []; max_cache_entries = 4; metrics = none; stopped = []; closed = [] }) none
      w

sample_place : IsPlaced sample_piece sample_file
sample_place = record {
  from-le-to = omega arith;
  to-lt = omega arith;
  from-in = omega arith;
  to-in = omega arith;
  one_piece = λ e. ground (arith, e);
}

-- The sample network never fails.
sample_served : IsServed sample_network sample_piece (λ e. ⊥)
sample_served = record {
  get-piece = λ f p w bs e. ground (arith, e);
  get-Fault = λ f p w x e. ground (arith, e);
  cancelled-Fault = λ w x e. ground (arith, e);
  write-Fault = λ part w x e. ground (arith, e);
}

after_torrent-Streams_example :
    Streams
      (λ e. ⊥)
      {n = sample_network}
      5
      (text "cdefg")
      (after_torrent sample_network (got (text "aa") tt) (text "a.txt") (fresh sample_network 7))
unfolding pieces_from new_state
after_torrent-Streams_example =
    after_torrent-Streams (λ e. ⊥) sample_network sample_piece sample_file (text "cdefg")
      (text "a.txt") (text "aa") tt (fresh sample_network 7) refl sample_place sample_served refl

abbrev rest_of : List Bytes → List Bytes
rest_of [] = []
rest_of (t ∷ ts) = ts

-- A network whose world is the torrents that are open; a downloader is never created in time.
abbrev open_network : Network
open_network = record {
  World = List Bytes;
  Torrent = Bytes;
  Downloader = Unit {0};
  Fetcher = Unit {0};
  clock = λ w. (λ k. 7 + k, w);
  lock = λ m w. w;
  unlock = λ m w. w;
  hex_error = λ s. plain_error (text "encoding/hex");
  overlay_hash = λ id. ok (0 ∷ id);
  new_torrent = λ id w. (id, id ∷ w);
  bag_id = λ t. t;
  start = λ t w. (none, w);
  stop = λ t w. rest_of w;
  get_peers = λ t w. 3;
  is_loaded = λ t w. true;
  files_count = λ t w. 2;
  file_size = λ t w. 10;
  description = λ t w. text "sample";
  get_file_offsets_by_id = λ t i w. ok (record sample_file { index = i });
  get_file_offsets = λ t path w. ok sample_file;
  create_downloader = λ t w. (err (wrap (text "dht: ") err_deadline), w);
  new_pre_fetcher = λ t d ps w. (tt, w);
  get_piece = λ f p w. (ok (sample_piece p), w);
  stop_fetcher = λ f w. w;
  cancelled = λ w. (none, w);
  write = λ part w. (none, w);
}

abbrev open_ledger : Ledger open_network
open_ledger = record {
  opened = λ w. w;
  new_torrent-opened = λ id w. refl;
  stop-opened = λ t w l e. ap rest_of e;
  start-opened = λ t w. refl;
  create_downloader-opened = λ t w. refl;
  clock-opened = λ w. refl;
  lock-opened = λ m w. refl;
  unlock-opened = λ m w. refl;
}

-- Another torrent is open when the one of the request fails.
get_torrent_of-Left_example :
    Left open_network open_ledger
      (text "bb" ∷ [])
      []
      (get_torrent_of open_network (text "aa") (fresh open_network (text "bb" ∷ [])))
unfolding new_state
get_torrent_of-Left_example =
    get_torrent_of-Left open_network open_ledger (text "aa") (fresh open_network (text "bb" ∷ []))

abbrev sample_info : BagInfo
sample_info = record {
  description = text "sample";
  total_size = 10;
  peers_count = 3;
  files =
      record { index = 0; name = text "a.txt"; size = 5 }
      ∷ record { index = 1; name = text "a.txt"; size = 5 }
      ∷ [];
}

abbrev sample_faults : Faults
sample_faults = record {
  get_config = λ url. none;
  listen = none;
  dht_key = none;
  start_dht = none;
  new_dht_client = none;
  storage_key = none;
  start_storage = some (plain_error (text "in use"));
}

close-reverse_test :
    (close (new_client sample_faults [])).closed
    ≡ reverse (close (new_client sample_faults [])).opened
close-reverse_test = close-reverse sample_faults []

use_stream-IsAccounted_example : IsAccounted 2 7 true (
    use_stream
      (reads_bytes 4 ∷ reads_bytes 3 ∷ closes_stream ∷ closes_stream ∷ [])
      (new_metered_stream 2))
unfolding total_read is_closed_by
use_stream-IsAccounted_example =
    use_stream-IsAccounted 2 (reads_bytes 4 ∷ reads_bytes 3 ∷ closes_stream ∷ closes_stream ∷ [])

-- Two full rounds, and then the end of the reader with one more byte.
abbrev sample_rounds : ℕ → Round
sample_rounds k = record {
  is_late = false;
  read_bytes = k ∷ [];
  read_failed = leb 2 k;
  write_failed = false;
}

-- An escape that drops the quotes is enough for the frame.
unfoldable drop_quotes : Bytes → Bytes
drop_quotes [] = []
drop_quotes (c ∷ s) = let rest = drop_quotes s in if c == 34 then rest else c ∷ rest

wrap_html-IsConfined_example :
    (value_of (text " srcdoc=\"") (
        wrap_html drop_quotes
          (text "<a href=\"x\">")
          (record { allow_scripts = true; allow_forms = true }))
      ≡ some (text "<a href=x>"))
    × (value_of (text " sandbox=\"") (
          wrap_html drop_quotes
            (text "<a href=\"x\">")
            (record { allow_scripts = true; allow_forms = true }))
        ≡ some (text "allow-scripts allow-forms"))
    × (contains (text "allow-scripts allow-forms") (text "allow-same-origin") ≡ false)
unfolding drop_quotes sandbox
wrap_html-IsConfined_example =
    wrap_html-IsConfined drop_quotes (text "<a href=\"x\">")
      (record { allow_scripts = true; allow_forms = true }) refl
