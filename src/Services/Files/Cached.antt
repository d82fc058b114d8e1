-- ===== src/Services/Files/Cached.antt =====
-- The cache of listings in front of `GetPathInfo`: pkg/services/files/cache.go.
pub mod Hits
pub mod Returned
use mytonstorage_gateway.Common.{
  Bool, List, Option, [], false, if◌then◌else◌, none, some, ℕ, ◌++◌, ◌∷◌,
}
use mytonstorage_gateway.Cache.{SimpleCache, get, new_simple_cache, set}
use mytonstorage_gateway.Clients.Remote.Stream.{stream_file}
use mytonstorage_gateway.Services.Files.{FolderInfo}
use mytonstorage_gateway.Services.Files.Ensure.{Outside}
use mytonstorage_gateway.Services.Files.Local.{Reply}
use mytonstorage_gateway.Services.Files.Monad.{State}
use mytonstorage_gateway.Services.Files.Service.{get_path_info}
use mytonstorage_gateway.Text.{Bytes, bytes_eq}

-- One minute, in milliseconds.
abbrev pub listing_ttl : ℕ
listing_ttl = 60_000

-- `fmt.Sprintf("%s:%s", bagID, path)`
abbrev pub cache_key : Bytes → Bytes → Bytes
cache_key bag_id path = bag_id ++ b':' ∷ path

-- `cacheMiddleware`, with the state of the service behind it.
pub record CachedState (W : Type 0) : Type 0 where
  pub cache : SimpleCache FolderInfo
  pub inner : State W

-- `NewCacheMiddleware`
unfoldable pub new_cache_middleware : {W : Type 0} → State W → CachedState W
new_cache_middleware s = record { cache = new_simple_cache listing_ttl; inner = s }

-- Whether a reply is kept: `info.StreamFile != nil || info.SingleFilePath != ""`, negated.
unfoldable pub is_kept : Reply → Bool
is_kept (info, some e) = false
is_kept (info, none) = elim info.stream_file [
  | some _ ↦ false
  | none ↦ bytes_eq info.single_file_path []
]

unfoldable pub keep : ℕ → Bytes → Reply → SimpleCache FolderInfo → SimpleCache FolderInfo
keep t_set key reply c = if is_kept reply then set t_set key reply.0 c else c

module _ (o : Outside) where
  -- A miss: the service is asked, from the cache that the lookup left.
  unfoldable pub ask_service :
      ℕ → Bytes → Bytes → CachedState o.World → Option (Reply × CachedState o.World)
  ask_service t_set bag_id path s = elim (get_path_info o bag_id path s.inner) [
    | none ↦ none
    | some (reply, inner) ↦
        some (
          reply,
          record { cache = keep t_set (cache_key bag_id path) reply s.cache; inner = inner },
        )
  ]

  -- The times are those at which `Get` and `Set` read the clock.
  unfoldable pub get_path_info_cached :
      ℕ → ℕ → Bytes → Bytes → CachedState o.World → Option (Reply × CachedState o.World)
  get_path_info_cached t_get t_set bag_id path s =
      let (hit, cache) = get t_get (cache_key bag_id path) s.cache in
      elim hit [
        | some info ↦ some ((info, none), record s { cache = cache })
        | none ↦ ask_service t_set bag_id path (record s { cache = cache })
      ]

-- A request of the middleware, with the times at which it reads the clock.
pub record CachedRequest : Type 0 where
  pub t_get : ℕ
  pub t_set : ℕ
  pub bag_id : Bytes
  pub path : Bytes

-- The state after the requests, one after the other.
unfoldable pub serve_all :
    (o : Outside) → List CachedRequest → CachedState o.World → Option (CachedState o.World)
serve_all o [] s = some s
serve_all o (q ∷ requests) s = elim (get_path_info_cached o q.t_get q.t_set q.bag_id q.path s) [
  | none ↦ none
  | some (_, s') ↦ serve_all o requests s'
]
