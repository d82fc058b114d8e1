-- ===== src/Tests/Caches.antt =====
-- The caches.
use mytonstorage_gateway.Common.{
  Bool, List, [], arith, false, if◌then◌else◌, leb, none, refl, some, true, ℕ, ◌+◌, ◌∷◌, ◌≡◌,
}
use mytonstorage_gateway.Cache.{SimpleCache, cleanup, get, get_all, new_simple_cache, release, set}
use mytonstorage_gateway.Cache.Reads.{reads, reads-cleanup, reads-release, reads-set}
use mytonstorage_gateway.Dict.{delete, insert, keep_if, lookup}
use mytonstorage_gateway.Models.{ok}
use mytonstorage_gateway.Repositories.{
  Cached, DbBanStatus, Repository, has_ban, new_cache, update_ban_status,
}
use mytonstorage_gateway.Repositories.Coherence.{
  IsCoherent, IsSql, has_ban-IsCoherent, has_ban_exact, new_cache-IsCoherent, status_entries,
  update_ban_status-IsCoherent, updated,
}
use mytonstorage_gateway.Tests.Sample.{plain_unicode}
use mytonstorage_gateway.Text.{Bytes, bytes_eq, text, to_lower}

cache_code : Unit {0}
unfolding get set release cleanup get_all lookup insert delete keep_if new_simple_cache
cache_code = tt

abbrev one_entry : SimpleCache ℕ
one_entry = record { items = (text "a", record { value = 1; expiry_time = 60 }) ∷ []; ttl = 60 }

expiry_test : (reads one_entry 60 (text "a") ≡ some 1) × (reads one_entry 61 (text "a") ≡ none)
unfolding cache_code
expiry_test = (refl, refl)

reads-set_test : reads (set 5 (text "b") 2 one_entry) 70 (text "b") ≡ (
    if bytes_eq (text "b") (text "b")
    then (if leb 70 (5 + one_entry.ttl) then some 2 else none)
    else reads one_entry 70 (text "b"))
reads-set_test = reads-set one_entry 5 70 (text "b") (text "b") 2

reads-cleanup_test : reads (cleanup 61 one_entry) 62 (text "a") ≡ reads one_entry 62 (text "a")
unfolding cache_code
reads-cleanup_test = reads-cleanup one_entry 61 62 (text "a") (refl, tt) (omega arith)

reads-release_test :
    ((release 10 (text "a") one_entry).0 ≡ reads one_entry 10 (text "a"))
    × (reads (release 10 (text "a") one_entry).1 20 (text "a")
        ≡ (if bytes_eq (text "a") (text "a") then none else reads one_entry 20 (text "a")))
reads-release_test = reads-release one_entry 10 20 (text "a") (text "a")

-- A database whose blacklist is a set of bag IDs.
abbrev sample_update : List DbBanStatus → (Bytes → Bool) → Bytes → Bool
sample_update l db b = updated (lookup b (status_entries l)) (db b)

abbrev sample_repository : Repository
sample_repository = record {
  Db = Bytes → Bool;
  has_ban = λ b db. ok (db b);
  get_ban = λ b db. ok none;
  get_all_bans = λ n m db. ok [];
  get_reports = λ n m db. ok [];
  get_reports_by_bag_id = λ b db. ok [];
  add_report = λ r db. (none, db);
  update_ban_status = λ l db. (none, sample_update l db);
}

ok-injective : (a b : Bool) → ok a ≡ ok b → b ≡ a
ok-injective a b e = cc

sample_sql : IsSql sample_repository
sample_sql = record {
  banned = λ b db. db b;
  has_ban-banned = λ b db answer e. ok-injective (db b) answer e;
  banned-update = λ l db b once done. refl;
  banned-failed = λ l db b e failed. cc;
}

abbrev ban : Bytes → Bool → DbBanStatus
ban b status = record {
  bag_id = b;
  admin = [];
  reason = [];
  comment = [];
  status = status;
  created_at = none;
}

abbrev empty_cached : Cached sample_repository
empty_cached = new_cache sample_repository (λ b. false)

update_ban_status-IsCoherent_test :
    IsCoherent sample_repository sample_sql
      (update_ban_status sample_repository
        (λ n. n)
        (ban (text "aa") true ∷ ban (text "bb") false ∷ [])
        empty_cached).1
unfolding to_lower lookup
update_ban_status-IsCoherent_test =
    update_ban_status-IsCoherent sample_repository sample_sql (λ n. n)
      (ban (text "aa") true ∷ ban (text "bb") false ∷ []) empty_cached
      (new_cache-IsCoherent sample_repository sample_sql (λ b. false)) (refl, (refl, tt))
      (refl, (refl, tt))

has_ban-IsCoherent_test :
    IsCoherent sample_repository sample_sql
      (has_ban sample_repository 1 2 (text "aa") empty_cached).1
unfolding to_lower
has_ban-IsCoherent_test =
    has_ban-IsCoherent sample_repository sample_sql 1 2 (text "aa") empty_cached
      (new_cache-IsCoherent sample_repository sample_sql (λ b. false)) refl

has_ban_exact_test : false ≡ sample_sql.banned (text "aa") empty_cached.db
unfolding to_lower has_ban get lookup new_cache new_simple_cache
has_ban_exact_test =
    has_ban_exact sample_repository sample_sql 1 2 (text "aa") empty_cached false
      (new_cache-IsCoherent sample_repository sample_sql (λ b. false)) refl refl
