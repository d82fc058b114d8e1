-- ===== src/Services/Files/Cached/Hits.antt =====
-- What the cache of listings, pkg/services/files/cache.go, may answer, and for how long.
use mytonstorage_gateway.Common.{
  Bool-cases, Option, [], arith, inl, inr, none, refl, some, true, ℕ, ◌+◌, ◌<◌, ◌≡◌, ◌≤◌, ◌⊎◌,
}
use mytonstorage_gateway.Cache.{SimpleCache, get}
use mytonstorage_gateway.Cache.Reads.{get-ttl, reads, reads-get-some, reads-set, set-ttl}
use mytonstorage_gateway.Models.{not_acceptable_error_code, ok}
use mytonstorage_gateway.Services.Files.{FolderInfo, empty_info}
use mytonstorage_gateway.Services.Files.Cached.{
  CachedState, ask_service, cache_key, get_path_info_cached, is_kept, keep,
}
use mytonstorage_gateway.Services.Files.Ensure.{Outside}
use mytonstorage_gateway.Services.Files.Local.{Reply, app_err}
use mytonstorage_gateway.Services.Files.Service.{get_path_info}
use mytonstorage_gateway.Services.Files.Service.Gate.{get_path_info-refused}
use mytonstorage_gateway.Text.{Bytes, text}
use mytonstorage_gateway.Text.Laws.{bytes_eq_iff}

-- Nothing that is used up by one reader, and no file of the disk.
abbrev pub IsDirectory : FolderInfo → Type 0
IsDirectory info = (info.stream_file ≡ none) × (info.single_file_path ≡ [])

-- Whatever can be read from the cache, at any time, is a directory.
abbrev pub IsClean : SimpleCache FolderInfo → Type 0
IsClean c = (t : ℕ) (k : Bytes) (info : FolderInfo) → reads c t k ≡ some info → IsDirectory info

kept-IsDirectory : (reply : Reply) → is_kept reply ≡ true → IsDirectory reply.0
unfolding is_kept
kept-IsDirectory (info, some e) h = cc
kept-IsDirectory (info, none) h = ground (arith, bytes_eq_iff info.single_file_path [])

keep-IsClean :
    (t_set : ℕ) (key : Bytes) (reply : Reply) (c : SimpleCache FolderInfo)
    → IsClean c
    → IsClean (keep t_set key reply c)
unfolding keep
keep-IsClean t_set key reply c h = elim (Bool-cases (is_kept reply)) [
  | inl yes_kept ↦ rw yes_kept (λ t k info e.
      ground
        (arith, reads-set c t_set t key k reply.0, kept-IsDirectory reply yes_kept, h t k info))
  | inr not_kept ↦ rw not_kept h
]

-- Every entry was stored at that time or before: it is not read later than its time to live after.
abbrev pub IsStoredBy : ℕ → SimpleCache FolderInfo → Type 0
IsStoredBy now c =
    (t : ℕ) (k : Bytes) (info : FolderInfo) → reads c t k ≡ some info → t ≤ now + c.ttl

keep-IsStoredBy :
    (now t_set : ℕ) (key : Bytes) (reply : Reply) (c : SimpleCache FolderInfo)
    → now ≤ t_set
    → IsStoredBy now c
    → IsStoredBy t_set (keep t_set key reply c)
unfolding keep
keep-IsStoredBy now t_set key reply c le h = elim (Bool-cases (is_kept reply)) [
  | inl yes_kept ↦ rw yes_kept (λ t k info e.
      ground (arith, reads-set c t_set t key k reply.0, set-ttl c t_set key reply.0, h t k info))
  | inr not_kept ↦ rw not_kept (λ t k info e. omega (arith, h t k info e))
]

module _ (o : Outside) where
  pub get_path_info_cached-cases :
      (t_get t_set : ℕ) (bag_id path : Bytes) (s s' : CachedState o.World) (reply : Reply)
      → get_path_info_cached o t_get t_set bag_id path s ≡ some (reply, s')
      → ((reads s.cache t_get (cache_key bag_id path) ≡ some reply.0)
          × (reply.1 ≡ none)
          × (s'.inner ≡ s.inner)
          × (s'.cache ≡ (get t_get (cache_key bag_id path) s.cache).1))
        ⊎ ((reads s.cache t_get (cache_key bag_id path) ≡ none)
            × (get_path_info o bag_id path s.inner ≡ some (reply, s'.inner))
            × (s'.cache
                ≡ keep t_set
                    (cache_key bag_id path)
                    reply
                    (get t_get (cache_key bag_id path) s.cache).1))
  unfolding get_path_info_cached ask_service
  get_path_info_cached-cases t_get t_set bag_id path s s' reply e = ground arith

  -- If the cache holds directories only, it does so after a request: a stream, which only one
  -- reader can consume, and a path on disk are never stored or answered from it.
  pub get_path_info_cached-IsClean :
      (t_get t_set : ℕ) (bag_id path : Bytes) (s s' : CachedState o.World) (reply : Reply)
      → IsClean s.cache
      → get_path_info_cached o t_get t_set bag_id path s ≡ some (reply, s')
      → IsClean s'.cache
  get_path_info_cached-IsClean t_get t_set bag_id path s s' reply h e =
      elim (get_path_info_cached-cases t_get t_set bag_id path s s' reply e) [
        | inl (hit, fine, inner, same) ↦ rw same looked
        | inr (miss, asked, same) ↦
            rw same (keep-IsClean t_set (cache_key bag_id path) reply _ looked)
      ]
    where
      looked : IsClean (get t_get (cache_key bag_id path) s.cache).1
      looked t k info p =
          h t k info (reads-get-some s.cache t_get t (cache_key bag_id path) k info p)

  -- A hit is answered from the cache whatever the database says of the bag: it is not asked.
  pub get_path_info_cached_hit :
      (t_get t_set : ℕ) (bag_id path : Bytes) (s : CachedState o.World) (info : FolderInfo)
      → reads s.cache t_get (cache_key bag_id path) ≡ some info
      → get_path_info_cached o t_get t_set bag_id path s
        ≡ some ((info, none), record s { cache = (get t_get (cache_key bag_id path) s.cache).1 })
  unfolding get_path_info_cached
  get_path_info_cached_hit t_get t_set bag_id path s info e = ground arith

  -- If every entry was stored by a time, then after a request every entry was stored by the time at
  -- which that request stores: no entry is read later than its time to live after it.
  pub get_path_info_cached-IsStoredBy :
      (now t_get t_set : ℕ) (bag_id path : Bytes) (s s' : CachedState o.World) (reply : Reply)
      → now ≤ t_set
      → IsStoredBy now s.cache
      → get_path_info_cached o t_get t_set bag_id path s ≡ some (reply, s')
      → IsStoredBy t_set s'.cache
  get_path_info_cached-IsStoredBy now t_get t_set bag_id path s s' reply le h e =
      elim (get_path_info_cached-cases t_get t_set bag_id path s s' reply e) [
        | inl (hit, fine, inner, same) ↦ rw same (λ t k info p. omega (arith, looked t k info p))
        | inr (miss, asked, same) ↦
            rw same (keep-IsStoredBy now t_set (cache_key bag_id path) reply _ le looked)
      ]
    where
      looked : IsStoredBy now (get t_get (cache_key bag_id path) s.cache).1
      looked t k info p =
          rw get-ttl (h t k info (reads-get-some s.cache t_get t (cache_key bag_id path) k info p))

  -- A ban ends the answers from the cache one minute after the last listing was stored, at the
  -- latest: after that time the reply of a bag that the database reports as banned is the refusal
  -- of the ban check, and nothing is stored.
  pub get_path_info_cached-ban :
      (t0 t_get t_set : ℕ) (bag_id path : Bytes) (s : CachedState o.World)
      → (o.has_ban bag_id s.inner.world).0 ≡ ok true
      → IsStoredBy t0 s.cache
      → t0 + s.cache.ttl < t_get
      → get_path_info_cached o t_get t_set bag_id path s
        ≡ some (
          (empty_info, app_err not_acceptable_error_code (text "bag is banned")),
          record {
            cache = (get t_get (cache_key bag_id path) s.cache).1;
            inner = record s.inner { world = (o.has_ban bag_id s.inner.world).1 };
          },
        )
  unfolding get_path_info_cached ask_service keep is_kept
  get_path_info_cached-ban t0 t_get t_set bag_id path s banned stored late = ground (
    arith,
    get_path_info-refused o bag_id path s.inner,
    expired (reads s.cache t_get (cache_key bag_id path)) refl,
  )
    where
      expired :
          (hit : Option FolderInfo)
          → reads s.cache t_get (cache_key bag_id path) ≡ hit
          → reads s.cache t_get (cache_key bag_id path) ≡ none
      expired none e = e
      expired (some info) e = absurd (omega (arith, stored t_get (cache_key bag_id path) info e))
