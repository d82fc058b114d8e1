-- ===== src/Services/Files/Wired/Ended.antt =====
-- From a ban in the database to the replies of the cached service that cmd/main.go puts together.
use mytonstorage_gateway.Common.{
  All, List, Option, Option-cases, arith, inl, inr, none, refl, some, true, ℕ, ◌+◌, ◌<◌, ◌≡◌,
}
use mytonstorage_gateway.Cache.Reads.{reads}
use mytonstorage_gateway.Clients.Storage.{StorageClient, Transport}
use mytonstorage_gateway.Dict.{IsMap, lookup}
use mytonstorage_gateway.Models.{GoError}
use mytonstorage_gateway.Repositories.{DbBanStatus, update_ban_status}
use mytonstorage_gateway.Repositories.Coherence.{IsLower, status_entries}
use mytonstorage_gateway.Repositories.Sql.{Statement, Tables, new_repository}
use mytonstorage_gateway.Services.Files.Cached.{
  CachedRequest, CachedState, ask_service, cache_key, get_path_info_cached, serve_all,
}
use mytonstorage_gateway.Services.Files.Cached.Hits.{IsStoredBy}
use mytonstorage_gateway.Services.Files.Ensure.{Outside}
use mytonstorage_gateway.Services.Files.Local.{Reply}
use mytonstorage_gateway.Services.Files.Monad.{State}
use mytonstorage_gateway.Services.Files.Service.{get_path_info}
use mytonstorage_gateway.Services.Files.Wired.{WiredWorld, wire}
use mytonstorage_gateway.Services.Files.Wired.Banned.{
  Refused, after_bans, after_bans-banned, banned-Refused, banned_reply, failed_reply,
}
use mytonstorage_gateway.Services.Files.Wired.Ending.{
  IsEnding, IsPlainId, SqlCoherent, serve_all-IsEnding,
}
use mytonstorage_gateway.Text.{Bytes, Unicode}

module _ ⦃u : Unicode⦄ (o : Outside) (fault : Statement → Tables → Option GoError) (h : Transport)
    (c : StorageClient) where
  -- The bag is refused once its listings are too old to be read.
  IsEnding-Refused :
      (t0 ttl t_get t_set : ℕ) (bag_id path : Bytes) (s : CachedState (WiredWorld o fault h c))
      → IsPlainId o fault h c bag_id
      → IsEnding o fault h c t0 ttl bag_id s
      → t0 + ttl < t_get
      → Refused (get_path_info_cached (wire o fault h c) t_get t_set bag_id path s)
  unfolding get_path_info_cached ask_service
  IsEnding-Refused t0 ttl t_get t_set bag_id path s id ending late =
      let key = cache_key bag_id path in
      elim (Option-cases (reads s.cache t_get key)) [
        | inr (info, hit) ↦ absurd (omega (arith, ending.stored t_get path info hit))
        | inl miss ↦
            asked (get_path_info (wire o fault h c) bag_id path s.inner) refl
              (banned-Refused o fault h c bag_id path s.inner ending.coherent id.0 ending.banned)
              miss
      ]
    where
      asked :
          (r : Option (Reply × State (WiredWorld o fault h c)))
          → get_path_info (wire o fault h c) bag_id path s.inner ≡ r
          → Refused r
          → reads s.cache t_get (cache_key bag_id path) ≡ none
          → Refused (get_path_info_cached (wire o fault h c) t_get t_set bag_id path s)
      asked _ e banned_reply miss = rw (get_path_info_cached, miss, ask_service, e) banned_reply
      asked _ e failed_reply miss = rw (get_path_info_cached, miss, ask_service, e) failed_reply

  -- The state of the cached service after an update of the bans.
  abbrev pub cached_after_bans :
      (ℕ → ℕ)
      → List DbBanStatus
      → CachedState (WiredWorld o fault h c)
      → CachedState (WiredWorld o fault h c)
  cached_after_bans now l s = record s { inner = after_bans o fault h c now l s.inner }

  -- A ban takes effect: once `UpdateBanStatus` has stored a list that bans a bag, at a time by which
  -- every listing of the cache was stored, then after any requests for any bags that return, and
  -- later than one time to live of the cache, every path of the bag is refused, with status 406 or,
  -- where the database fails, 500. The bag IDs are in lower case and without a colon, the update
  -- names no bag twice, and the cache of the repository says only what the tables say.
  pub ban-Ended :
      (now : ℕ → ℕ) (l : List DbBanStatus) (t0 t_get t_set : ℕ) (bag_id path : Bytes)
      (requests : List CachedRequest) (s s' : CachedState (WiredWorld o fault h c))
      → SqlCoherent o fault h c s.inner.world.files
      → IsPlainId o fault h c bag_id
      → All (λ x. IsLower x.bag_id) l
      → IsMap (status_entries l)
      → lookup bag_id (status_entries l) ≡ some true
      → (update_ban_status (new_repository fault) now l s.inner.world.files).0 ≡ none
      → IsStoredBy t0 s.cache
      → All (λ q. IsPlainId o fault h c q.bag_id) requests
      → serve_all (wire o fault h c) requests (cached_after_bans now l s) ≡ some s'
      → t0 + s.cache.ttl < t_get
      → Refused (get_path_info_cached (wire o fault h c) t_get t_set bag_id path s')
  ban-Ended now l t0 t_get t_set bag_id path requests s s' coherent id lows single in_list done
        stored ids came late =
      let (coherent', banned) =
        after_bans-banned o fault h c now l bag_id s.inner coherent lows single in_list done in
      IsEnding-Refused t0 s.cache.ttl t_get t_set bag_id path s' id
        (serve_all-IsEnding o fault h c t0 s.cache.ttl bag_id requests (cached_after_bans now l s)
          s' id ids
          (record {
            coherent = coherent';
            banned = banned;
            lasting = refl;
            stored = λ t p info e. stored t (cache_key bag_id p) info e;
          })
          came)
        late
