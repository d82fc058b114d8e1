-- ===== src/Tests/Bags.antt =====
-- The cache of torrents, and the service of reports.
use mytonstorage_gateway.Common.{
  [], arith, false, length, none, pos, refl, some, true, ℕ, ◌+◌, ◌∷◌, ◌≡◌, ◌≢◌, ◌≤◌, ◌⊎◌,
}
use mytonstorage_gateway.Clients.BagsCache.{
  BagsCache, TorrentEntry, evict, free_all, free_unsafe, oldest_from, put, set_torrent,
}
use mytonstorage_gateway.Clients.BagsCache.Bounded.{set_torrent-Returns, set_torrent-bounded}
use mytonstorage_gateway.Clients.BagsCache.Least.{IsEvicted, free_unsafe-IsEvicted}
use mytonstorage_gateway.Dict.{delete, insert, lookup}
use mytonstorage_gateway.HttpServer.Admin.{
  add_parsed, add_report_handler, send_ok, update_ban_status_handler,
}
use mytonstorage_gateway.HttpServer.Admin.Written.{
  IsReported, IsUpdated, add_report_handler-IsReported, update_ban_status_handler-IsUpdated,
}
use mytonstorage_gateway.HttpServer.Validate.{hex_loop, is_lower_hex, validate_bag_id}
use mytonstorage_gateway.Models.{err, err_timeout, ok}
use mytonstorage_gateway.Repositories.{Repository}
use mytonstorage_gateway.Services.Reports.{
  BanStatus, Report, add_report, bag_id_error, get_reports, internal_error, update_ban_status,
}
use mytonstorage_gateway.Services.Reports.Opaque.{
  IsOpaque, reports_fail, service-IsOpaque, update_ban_status-refused, update_ban_status-written,
}
use mytonstorage_gateway.Tests.Sample.{plain_unicode}
use mytonstorage_gateway.Text.{Bytes, lower_byte, lower_from, text, to_lower}

bags_code : Unit {0}
unfolding set_torrent put free_all free_unsafe evict oldest_from lookup insert delete to_lower
    lower_from lower_byte
bags_code = tt

abbrev torrent_at : ℕ → TorrentEntry ℕ
torrent_at t = record { torrent = t; has_downloader = true; bag_size = 0; last_used = t }

-- One torrent of at most one.
abbrev full : BagsCache ℕ
full = record {
  cache = (text "a", torrent_at 1) ∷ [];
  max_cache_entries = 1;
  metrics = none;
  stopped = [];
  closed = [];
}

abbrev replaced : BagsCache ℕ
replaced = record {
  cache = (text "b", torrent_at 2) ∷ [];
  max_cache_entries = 1;
  metrics = none;
  stopped = 1 ∷ [];
  closed = 1 ∷ [];
}

evict_test : set_torrent 2 (λ n. 3 + n) (text "B") (torrent_at 2) full ≡ some replaced
unfolding bags_code
evict_test = refl

set_torrent-Returns_test : set_torrent 2 (λ n. 3 + n) (text "b") (torrent_at 2) full ≢ none
set_torrent-Returns_test = set_torrent-Returns 2 (λ n. 3 + n) (text "b") (torrent_at 2) full

set_torrent-bounded_example : length replaced.cache ≤ 1
unfolding bags_code
set_torrent-bounded_example =
    set_torrent-bounded 2 (λ n. 3 + n) (text "B") (torrent_at 2) full replaced
      (((λ e. cc), (λ n. omega arith)), (((λ e. cc), (λ n. omega arith)), tt)) evict_test

abbrev crowded : BagsCache ℕ
crowded = record full { cache = (text "a", torrent_at 1) ∷ (text "b", torrent_at 2) ∷ [] }

free_unsafe-IsEvicted_example : IsEvicted crowded.cache (free_unsafe 3 crowded).1.cache
unfolding bags_code
free_unsafe-IsEvicted_example = free_unsafe-IsEvicted 3 crowded (refl, (refl, tt)) refl

-- A repository that stores nothing and reports the number of the statuses.
abbrev counting : Repository
counting = record {
  Db = ℕ;
  has_ban = λ b db. ok false;
  get_ban = λ b db. ok none;
  get_all_bans = λ n m db. ok [];
  get_reports = λ n m db. err err_timeout;
  get_reports_by_bag_id = λ b db. ok [];
  add_report = λ r db. (none, db + 1);
  update_ban_status = λ l db. (none, db + length l);
}

abbrev ban_of : Bytes → BanStatus
ban_of b = record { bag_id = b; admin = []; reason = []; comment = []; status = true }

abbrev some_id : Bytes
some_id = text "00000000000000000000000000000000000000000000000000000000000000AA"

update_ban_status-refused_test :
    update_ban_status counting (ban_of some_id ∷ ban_of (text "bb") ∷ []) 7 ≡ (some bag_id_error, 7)
update_ban_status-refused_test =
    update_ban_status-refused counting (ban_of some_id ∷ ban_of (text "bb") ∷ []) 7
      (λ (good, (bad, rest)). omega (arith, bad))

update_ban_status-written_test : update_ban_status counting (ban_of some_id ∷ []) 7 ≡ (none, 8)
update_ban_status-written_test = update_ban_status-written counting (ban_of some_id) [] 7 (refl, tt)

reports_fail_test : get_reports counting (pos 1) (pos 0) 7 ≡ err internal_error
unfolding get_reports
reports_fail_test = refl

service-IsOpaque_example : IsOpaque internal_error
service-IsOpaque_example =
    service-IsOpaque counting 7 internal_error (reports_fail (pos 1) (pos 0) reports_fail_test)

abbrev eight : ℕ
eight = 8

-- A body that the parsers take for one report, or one status, of that bag.
abbrev a_report : Report
a_report = record { bag_id = some_id; reason = []; sender = []; comment = []; created_at = 9 }

report_test : add_report_handler counting (λ body. some a_report) (text "{}") 7 ≡ some (send_ok, 8)
unfolding add_report_handler add_parsed validate_bag_id hex_loop is_lower_hex to_lower lower_from
    lower_byte add_report
report_test = refl

add_report_handler-IsReported_example :
    (eight ≡ 7) ⊎ IsReported counting (λ body. some a_report) (text "{}") 7 8
add_report_handler-IsReported_example =
    add_report_handler-IsReported counting (λ body. some a_report) (text "{}") 7 8 send_ok
      report_test

update_ban_status_handler-IsUpdated_example :
    ((update_ban_status_handler counting (λ body. some (ban_of some_id ∷ [])) (text "[]") 7).1 ≡ 7)
    ⊎ IsUpdated counting
        (λ body. some (ban_of some_id ∷ []))
        (text "[]")
        7
        (update_ban_status_handler counting (λ body. some (ban_of some_id ∷ [])) (text "[]") 7).1
update_ban_status_handler-IsUpdated_example =
    update_ban_status_handler-IsUpdated counting (λ body. some (ban_of some_id ∷ [])) (text "[]") 7
