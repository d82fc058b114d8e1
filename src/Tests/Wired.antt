-- ===== src/Tests/Wired.antt =====
-- The service over small tables and a small daemon.
use mytonstorage_gateway.Common.{List, Option, [], arith, none, refl, some, true, ◌∷◌, ◌≡◌}
use mytonstorage_gateway.Cache.{get, new_simple_cache, set}
use mytonstorage_gateway.Dict.{delete, insert, lookup}
use mytonstorage_gateway.HttpServer.Gateway.{Request}
use mytonstorage_gateway.HttpServer.Gateway.Withheld.{WithheldAfter, get_path-Withheld}
use mytonstorage_gateway.HttpServer.Serve.{Host, found}
use mytonstorage_gateway.Models.{Result, ok}
use mytonstorage_gateway.Repositories.{
  DbBanStatus, has_ban, new_cache, note_ban, note_status, note_statuses, update_ban_status,
}
use mytonstorage_gateway.Repositories.Coherence.{new_cache-IsCoherent}
use mytonstorage_gateway.Repositories.Sql.{
  bans_twice, change_blacklist, char_length, delete_unbanned, fits, is_storable, new_repository,
  upsert_banned,
}
use mytonstorage_gateway.Repositories.Sql.Bans.{new_repository-IsSql}
use mytonstorage_gateway.Services.Files.Cached.{
  CachedRequest, CachedState, ask_service, get_path_info_cached, is_kept, keep,
  new_cache_middleware, serve_all,
}
use mytonstorage_gateway.Services.Files.Cached.Hits.{IsStoredBy}
use mytonstorage_gateway.Services.Files.Monad.{State}
use mytonstorage_gateway.Services.Files.Service.{get_path_info}
use mytonstorage_gateway.Services.Files.Service.Clock.{IsClocked}
use mytonstorage_gateway.Services.Files.Wired.{WiredWorld, wire, wired_has_ban}
use mytonstorage_gateway.Services.Files.Wired.Banned.{Refused, after_bans, ban-Refused}
use mytonstorage_gateway.Services.Files.Wired.Ended.{ban-Ended, cached_after_bans}
use mytonstorage_gateway.Templates.{TemplateData}
use mytonstorage_gateway.Tests.Sample.{plain_unicode, sample_outside}
use mytonstorage_gateway.Tests.Sql.{a_ban, answering, no_fault, sample_client, sample_tables}
use mytonstorage_gateway.Text.{Bytes, lower_byte, lower_from, text, to_lower}
use mytonstorage_gateway.Text.Split.{contains_byte-Lacks}

abbrev wired_start : State (WiredWorld sample_outside no_fault (answering 200) sample_client)
wired_start = record {
  locks = record { mutexes = none; allocated = 0 };
  world = record {
    files = new_cache (new_repository no_fault) sample_tables;
    daemon = 0;
    rest = 5;
  };
}

abbrev one_ban : List DbBanStatus
one_ban = a_ban (text "aa") true ∷ []

ban-Refused_test : Refused (
    get_path_info
      (wire sample_outside no_fault (answering 200) sample_client)
      (text "aa")
      (text "docs")
      (after_bans sample_outside no_fault
        (answering 200)
        sample_client
        (λ k. k)
        one_ban
        wired_start))
unfolding to_lower lookup update_ban_status change_blacklist new_cache bans_twice fits char_length
    is_storable
ban-Refused_test =
    ban-Refused sample_outside no_fault (answering 200) sample_client (λ k. k) one_ban (text "aa")
      (text "docs") wired_start
      (new_cache-IsCoherent (new_repository no_fault) (new_repository-IsSql no_fault) sample_tables)
      refl (refl, tt) (refl, tt) refl refl

-- The cached service, with no listing yet, and a request for the banned bag within the minute.
abbrev cached_start : CachedState (WiredWorld sample_outside no_fault (answering 200) sample_client)
cached_start = new_cache_middleware wired_start

abbrev early_request : List CachedRequest
early_request = record { t_get = 7; t_set = 8; bag_id = text "aa"; path = text "docs" } ∷ []

abbrev state_or : {A : Type 0} → A → Option A → A
state_or a none = a
state_or a (some b) = b

abbrev after_early : CachedState (WiredWorld sample_outside no_fault (answering 200) sample_client)
after_early = state_or cached_start (
    serve_all (wire sample_outside no_fault (answering 200) sample_client) early_request (
      cached_after_bans sample_outside no_fault (answering 200) sample_client (λ k. k) one_ban
        cached_start))

early_code : Unit {0}
unfolding serve_all get_path_info_cached ask_service keep is_kept get_path_info wired_has_ban
    to_lower lookup insert delete update_ban_status change_blacklist new_cache bans_twice fits
    char_length is_storable new_cache_middleware new_simple_cache get has_ban upsert_banned
    delete_unbanned note_statuses note_status set note_ban
early_code = tt

early_served :
    serve_all (wire sample_outside no_fault (answering 200) sample_client) early_request (
      cached_after_bans sample_outside no_fault
        (answering 200)
        sample_client
        (λ k. k)
        one_ban
        cached_start)
    ≡ some after_early
unfolding early_code
early_served = refl

nothing_stored : IsStoredBy 6 cached_start.cache
unfolding new_cache_middleware new_simple_cache get lookup
nothing_stored t k info e = cc

ban-Ended_example : Refused (
    get_path_info_cached
      (wire sample_outside no_fault (answering 200) sample_client)
      60007
      60008
      (text "aa")
      (text "docs")
      after_early)
unfolding early_code
ban-Ended_example =
    ban-Ended sample_outside no_fault (answering 200) sample_client (λ k. k) one_ban 6 60007 60008
      (text "aa") (text "docs") early_request cached_start after_early
      (new_cache-IsCoherent (new_repository no_fault) (new_repository-IsSql no_fault) sample_tables)
      (refl, contains_byte-Lacks b':' (text "aa") refl) (refl, tt) (refl, tt) refl refl
      nothing_stored ((refl, contains_byte-Lacks b':' (text "aa") refl), tt) early_served
      (omega arith)

-- A disk with one text, templates that show their name, and a client that is no browser.
abbrev sample_host : Host
sample_host = record {
  lstat = λ p. some 3;
  stat = λ p. found 3;
  open_file = λ p. some (text "abc");
  read_file = λ p. ok (text "abc");
  read_stream = λ content n. ok content;
  wrap_html = λ s. ok s;
}

abbrev sample_execute : Bytes → Option TemplateData → Result Bytes
sample_execute name d = ok name

abbrev sample_request : Request
sample_request = record { direct = []; sec_fetch_dest = []; accept = [] }

sample_clock_wired : IsClocked sample_outside
sample_clock_wired = record {
  clock = λ w. w;
  clock-get_bag = λ b w. omega arith;
  now-after = λ w. omega arith;
  clock-now = λ w. omega arith;
  clock-wait = λ n w e. omega arith;
}

get_path-Withheld_example :
    WithheldAfter sample_outside no_fault
      (answering 200)
      sample_client
      sample_host
      (λ s. s)
      sample_execute
      early_request
      (cached_after_bans sample_outside no_fault
        (answering 200)
        sample_client
        (λ k. k)
        one_ban
        cached_start)
      60007
      60008
      sample_request
      (text "AA")
      (text "docs")
unfolding early_code lower_from lower_byte
get_path-Withheld_example =
    get_path-Withheld sample_outside no_fault (answering 200) sample_client sample_host (λ s. s)
      sample_execute (λ k. k) one_ban 6 60007 60008 (text "AA") (text "docs") sample_request
      early_request cached_start sample_clock_wired
      (new_cache-IsCoherent (new_repository no_fault) (new_repository-IsSql no_fault) sample_tables)
      (refl, contains_byte-Lacks b':' (text "aa") refl) (refl, tt) (refl, tt) refl refl
      nothing_stored ((refl, contains_byte-Lacks b':' (text "aa") refl), tt) (omega arith)
