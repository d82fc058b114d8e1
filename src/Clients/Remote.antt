-- ===== src/Clients/Remote.antt =====
-- The client of pkg/clients/remote-ton-storage: client.go and virtualStorage.go. The library
-- tonutils-storage, the clock and the mutexes are a parameter, `Network`. Histograms are left out.
pub mod Collectors
pub mod Torrents
pub mod Listed
pub mod Stream
pub mod Content
pub mod Races
pub mod Metered
pub mod Virtual
pub mod Listing
pub mod Streams
pub mod Failed
pub mod Delivered
pub mod Opened
use mytonstorage_gateway.Common.{Bool, List, Option, [], none, some, true, ℕ, ◌+◌, ◌∷◌}
use mytonstorage_gateway.Clients.BagsCache.{BagsCache, TorrentEntry, get_torrent, set_torrent}
use mytonstorage_gateway.Dict.{insert, lookup}
use mytonstorage_gateway.Models.{GoError, Result, err, ok}
use mytonstorage_gateway.Services.Files.Monad.{EnsureLocks, M, get_ensure_lock, run}
use mytonstorage_gateway.Text.{Bytes, Unicode}
use mytonstorage_gateway.Text.Unescape.{byte_of, cons_byte, hex_value}

-- `FileInfo` of tonutils-storage
pub record FileInfo : Type 0 where
  pub index : ℕ
  pub name : Bytes
  pub size : ℕ
  pub from_piece : ℕ
  pub to_piece : ℕ
  pub from_piece_offset : ℕ
  pub to_piece_offset : ℕ

-- What the client calls. The context of the call is part of the world.
pub record Network : Type 1 where
  pub World : Type 0
  pub Torrent : Type 0
  pub Downloader : Type 0
  pub Fetcher : Type 0
  -- the readings of the clock that one call of the cache makes
  pub clock : World → (ℕ → ℕ) × World
  pub lock : ℕ → World → World
  pub unlock : ℕ → World → World
  -- the error of `hex.DecodeString`, where it has one
  pub hex_error : Bytes → GoError
  -- `tl.Hash(keys.PublicKeyOverlay{Key: id})`
  pub overlay_hash : Bytes → Result Bytes
  -- `tonstorage.NewTorrent`, with its `BagID`, and the methods of a torrent
  pub new_torrent : Bytes → World → Torrent × World
  pub bag_id : Torrent → Bytes
  pub start : Torrent → World → Option GoError × World
  pub stop : Torrent → World → World
  pub get_peers : Torrent → World → ℕ
  -- neither `Header` nor `Info` is nil; then `Header.FilesCount`, `Info.FileSize` and
  -- `Info.Description.Value`
  pub is_loaded : Torrent → World → Bool
  pub files_count : Torrent → World → ℕ
  pub file_size : Torrent → World → ℕ
  pub description : Torrent → World → Bytes
  pub get_file_offsets_by_id : Torrent → ℕ → World → Result FileInfo
  pub get_file_offsets : Torrent → Bytes → World → Result FileInfo
  -- `CreateDownloader`, with a timeout of ten seconds
  pub create_downloader : Torrent → World → Result Downloader × World
  -- `NewPreFetcher`, its `Get` and its `Stop`
  pub new_pre_fetcher : Torrent → Downloader → List ℕ → World → Fetcher × World
  pub get_piece : Fetcher → ℕ → World → Result Bytes × World
  pub stop_fetcher : Fetcher → World → World
  -- the error of the context if it is done, and `Write` of the pipe
  pub cancelled : World → Option GoError × World
  pub write : Bytes → World → Option GoError × World

-- A request that is counted, with its label `result`.
pub data Counted : Type 0 where
  downloader_creation list_files_req stream_file_req : Bytes → Counted

-- The bytes of `hex.DecodeString`; `none` is an error.
unfoldable pub decode_hex : Bytes → Option Bytes
decode_hex [] = some []
decode_hex (a ∷ []) = none
decode_hex (a ∷ (b ∷ s)) = cons_byte (byte_of (hex_value a) (hex_value b)) (decode_hex s)

module _ (n : Network) where
  -- `client`, without the mutexes, beside the world that it acts on. A torrent stands in the cache
  -- with its downloader; `counts` are the counted requests, the last one first, if there are metrics.
  pub record Client : Type 0 where
    pub bags_cache : BagsCache (n.Torrent × n.Downloader)
    pub store : List (Bytes × n.Torrent)
    pub counts : Option (List Counted)
    pub active_streams : ℕ
    pub world : n.World

  -- The results of `getTorrent`: the torrent beside an error may be nil.
  pub data Got : Type 0 where
    got : n.Torrent → n.Downloader → Got
    not_got : Option n.Torrent → GoError → Got

  -- What `n` does to the world of a client.
  abbrev pub ask : {A : Type 0} → (n.World → A × n.World) → M Client A
  ask f = run (λ c. let (a, w) = f c.world in (a, record c { world = w }))

  abbrev pub tell : (n.World → n.World) → M Client (Unit {0})
  tell f = ask (λ w. (tt, f w))

  abbrev pub look : {A : Type 0} → (n.World → A) → M Client A
  look f = ask (λ w. (f w, w))

  abbrev pub count_one : Counted → M Client (Unit {0})
  count_one r =
      run (λ c. (tt, record c { counts = elim c.counts [ none ↦ none | some rs ↦ some (r ∷ rs) ] }))

  -- `VirtualStorage`: `SetTorrent`, whose error is dropped, and `GetTorrentByOverlay`
  unfoldable pub store_torrent : n.Torrent → List (Bytes × n.Torrent) → List (Bytes × n.Torrent)
  store_torrent t store = elim (n.overlay_hash (n.bag_id t)) [
    | ok id ↦ insert id t store
    | err e ↦ store
  ]

  abbrev pub get_torrent_by_overlay : Bytes → List (Bytes × n.Torrent) → Option n.Torrent
  get_torrent_by_overlay overlay store = lookup overlay store

  -- `getBagLock` is the code of `getEnsureLock` over a map that `NewClient` has made.
  abbrev pub get_bag_lock : Bytes → EnsureLocks → ℕ × EnsureLocks
  get_bag_lock bag_id locks = get_ensure_lock bag_id locks

  -- `bagsCache.Get` and `bagsCache.Set`
  module _ ⦃u : Unicode⦄ where
    unfoldable pub get_cached : Bytes → M Client (Option ((n.Torrent × n.Downloader) × Bool))
    get_cached bag_id = run (λ c.
        let (times, w) = n.clock c.world in
        let (hit, bc) = get_torrent (times 0) bag_id c.bags_cache in
        (hit, record c { bags_cache = bc; world = w }))

    -- The entry of `Set`, before it has the time.
    abbrev pub new_entry :
        n.Torrent → n.Downloader → Client → TorrentEntry (n.Torrent × n.Downloader)
    new_entry t d c = record {
      torrent = (t, d);
      has_downloader = true;
      bag_size = n.file_size t c.world;
      last_used = 0;
    }

    unfoldable pub set_cached : Bytes → n.Torrent → n.Downloader → M Client (Unit {0})
    set_cached bag_id t d s =
        let (times, w) = n.clock s.world.world in
        elim (set_torrent (times 0) (λ k. times (k + 1)) bag_id (new_entry t d s.world)
          s.world.bags_cache) [
            | none ↦ none
            | some bc ↦
                some (tt, record s { world = record s.world { bags_cache = bc; world = w } })
          ]
