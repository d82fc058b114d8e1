-- ===== src/Tests/Lookups.antt =====
-- Lookups of paths in the sample world.
use mytonstorage_gateway.Common.{[], arith, false, none, refl, some, true, ℕ, ◌↔◌, ◌∷◌, ◌≡◌}
use mytonstorage_gateway.Cache.{SimpleCache, get, set}
use mytonstorage_gateway.Dict.{delete, insert, lookup}
use mytonstorage_gateway.FilePath.{
  base, before, clean, clean_from, clean_step, join_path, render, split_file,
}
use mytonstorage_gateway.HttpServer.Contained.{IsContained, get_path_info-IsContained}
use mytonstorage_gateway.HttpServer.Validate.{sanitize_path}
use mytonstorage_gateway.Models.{new_app_error, not_acceptable_error_code, ok}
use mytonstorage_gateway.Services.Files.{BagDetailed, FolderInfo, empty_info}
use mytonstorage_gateway.Services.Files.Cached.{
  CachedState, ask_service, cache_key, get_path_info_cached, is_kept, keep, listing_ttl,
}
use mytonstorage_gateway.Services.Files.Cached.Hits.{
  IsClean, IsStoredBy, get_path_info_cached-IsClean, get_path_info_cached-IsStoredBy,
  get_path_info_cached-ban, get_path_info_cached_hit,
}
use mytonstorage_gateway.Services.Files.Ensure.{get_from_local_storage}
use mytonstorage_gateway.Services.Files.Listing.{
  file_entry, folder_entry, insert_entry, less, ls, ls_from, sort_slice, sub_path, visit,
  visit_below,
}
use mytonstorage_gateway.Services.Files.Local.{app_err, is_single_file, local_info}
use mytonstorage_gateway.Services.Files.Locks.{IsExclusive, after_requests, get_ensure_lock-single}
use mytonstorage_gateway.Services.Files.Monad.{State, get_ensure_lock}
use mytonstorage_gateway.Services.Files.Service.{find_path_info, get_path_info}
use mytonstorage_gateway.Services.Files.Service.Answer.{IsAnswer, get_path_info-IsAnswer}
use mytonstorage_gateway.Services.Files.Service.Clock.{IsClocked, Returns, get_path_info-Returns}
use mytonstorage_gateway.Services.Files.Service.Gate.{gate_error, get_path_info-refused}
use mytonstorage_gateway.Tests.Sample.{plain_unicode, sample_outside, start}
use mytonstorage_gateway.Text.{
  bytes_lt, cut_prefix, is_space, join, split, text, trim, trim_left, trim_right_rev, trim_space,
}

lookup_code : Unit {0}
unfolding ls ls_from visit visit_below sub_path cut_prefix trim trim_left split base split_file
    before sort_slice insert_entry less bytes_lt get_path_info find_path_info get_from_local_storage
    local_info new_app_error clean clean_from clean_step render join join_path is_single_file
    sanitize_path trim_space is_space trim_right_rev
lookup_code = tt

abbrev after : State ℕ
after = record { locks = record { mutexes = none; allocated = 0 }; world = 7 }

abbrev file_info : FolderInfo
file_info = record empty_info {
  files = file_entry (text "docs/b.txt") 7 ∷ [];
  total_size = 23;
  files_count = 4;
  peers_count = 2;
  description = text "sample";
  bag_id = text "aa";
  single_file_path = text "/var/bags/1/files/docs/b.txt";
}

file_test :
    get_path_info sample_outside (text "aa") (text "docs/b.txt") start
    ≡ some ((file_info, none), after)
unfolding lookup_code
file_test = refl

clean_file_test : sanitize_path (text "./docs//b.txt") ≡ ok (text "docs/b.txt")
unfolding lookup_code
clean_file_test = refl

abbrev docs_info : FolderInfo
docs_info = record empty_info {
  files = folder_entry (text "a") ∷ file_entry (text "b.txt") 7 ∷ [];
  total_size = 23;
  files_count = 4;
  peers_count = 2;
  description = text "sample";
  bag_id = text "aa";
}

docs_test :
    get_path_info sample_outside (text "aa") (text "docs") start ≡ some ((docs_info, none), after)
unfolding lookup_code
docs_test = refl

sample_clock : IsClocked sample_outside
sample_clock = record {
  clock = λ w. w;
  clock-get_bag = λ b w. omega arith;
  now-after = λ w. omega arith;
  clock-now = λ w. omega arith;
  clock-wait = λ n w e. omega arith;
}

get_path_info-Returns_example :
    Returns (get_path_info sample_outside (text "aa") (text "docs")) start
get_path_info-Returns_example =
    get_path_info-Returns sample_outside sample_clock (text "aa") (text "docs") start

get_path_info-refused_test :
    get_path_info sample_outside (text "bad") (text "docs") start
    ≡ some ((empty_info, gate_error (ok true)), record start { world = 6 })
get_path_info-refused_test =
    get_path_info-refused sample_outside (text "bad") (text "docs") start (λ e. cc)

get_path_info-IsAnswer_example :
    ((sample_outside.has_ban (text "aa") start.world).0 ≡ ok false)
    × IsAnswer sample_outside (text "aa") (text "docs") docs_info
get_path_info-IsAnswer_example =
    get_path_info-IsAnswer sample_outside (text "aa") (text "docs") start after docs_info docs_test

get_path_info-IsContained_example :
    (w : ℕ) × (bag : BagDetailed) × ((sample_outside.get_bag (text "aa") w).0 ≡ ok bag)
    × IsContained bag file_info.single_file_path
get_path_info-IsContained_example =
    get_path_info-IsContained sample_outside (text "aa") (text "./docs//b.txt") (text "docs/b.txt")
      start after file_info clean_file_test file_test (λ w bag e. cc) (λ e. cc)

-- The cache in front of the service, empty at the start.
abbrev cached_start : CachedState ℕ
cached_start = record { cache = record { items = []; ttl = listing_ttl }; inner = start }

abbrev cached_docs : SimpleCache FolderInfo
cached_docs = record {
  items = (text "aa:docs", record { value = docs_info; expiry_time = 60_020 }) ∷ [];
  ttl = listing_ttl;
}

abbrev cached_after : CachedState ℕ
cached_after = record { cache = cached_docs; inner = after }

cached_code : Unit {0}
unfolding lookup_code get_path_info_cached ask_service keep is_kept get set lookup insert delete
cached_code = tt

cached_test :
    get_path_info_cached sample_outside 10 20 (text "aa") (text "docs") cached_start
    ≡ some ((docs_info, none), cached_after)
unfolding cached_code
cached_test = refl

get_path_info_cached-IsClean_example : IsClean cached_docs
unfolding get lookup
get_path_info_cached-IsClean_example =
    get_path_info_cached-IsClean sample_outside 10 20 (text "aa") (text "docs") cached_start
      cached_after (docs_info, none) (λ t k info e. cc) cached_test

get_path_info_cached-IsStoredBy_test : IsStoredBy 20 cached_docs
unfolding get lookup
get_path_info_cached-IsStoredBy_test =
    get_path_info_cached-IsStoredBy sample_outside 0 10 20 (text "aa") (text "docs") cached_start
      cached_after (docs_info, none) (omega arith) (λ t k info e. cc) cached_test

-- The bag "bad" has a listing in the cache although it is banned.
abbrev cached_bad : CachedState ℕ
cached_bad = record {
  cache = record {
    items = (text "bad:", record { value = docs_info; expiry_time = 60_000 }) ∷ [];
    ttl = listing_ttl;
  };
  inner = start;
}

hit_test :
    get_path_info_cached sample_outside 10 20 (text "bad") (text "") cached_bad
    ≡ some (
      (docs_info, none),
      record cached_bad { cache = (get 10 (cache_key (text "bad") (text "")) cached_bad.cache).1 },
    )
unfolding get lookup
hit_test =
    get_path_info_cached_hit sample_outside 10 20 (text "bad") (text "") cached_bad docs_info refl

get_path_info_cached-ban_test :
    get_path_info_cached sample_outside 60_001 60_002 (text "bad") (text "docs") cached_start
    ≡ some (
      (empty_info, app_err not_acceptable_error_code (text "bag is banned")),
      record {
        cache = (get 60_001 (cache_key (text "bad") (text "docs")) cached_start.cache).1;
        inner = record start { world = 6 };
      },
    )
unfolding get lookup
get_path_info_cached-ban_test =
    get_path_info_cached-ban sample_outside 0 60_001 60_002 (text "bad") (text "docs") cached_start
      refl (λ t k info e. cc) (omega arith)

-- No mutex before the first request.
no_mutex-IsExclusive : IsExclusive start.locks
unfolding lookup
no_mutex-IsExclusive = record { single = λ a b m p q. cc; bounded = λ b m p. cc }

get_ensure_lock-single_example :
    ((get_ensure_lock (text "a") start.locks).0
      ≡ (get_ensure_lock
          (text "b")
          (after_requests (text "a" ∷ []) (get_ensure_lock (text "a") start.locks).1)).0)
    ↔ (text "a" ≡ text "b")
get_ensure_lock-single_example =
    get_ensure_lock-single (text "a") (text "b") (text "a" ∷ []) start.locks no_mutex-IsExclusive
