-- ===== src/Tests/Startup.antt =====
-- The start of the process, its tokens, its collectors and what it logs.
use mytonstorage_gateway.Common.{
  All, List, Option, [], arith, false, map, none, pos, refl, some, suc, true, ℕ, ◌+◌, ◌↔◌, ◌∷◌, ◌≡◌,
  ◌≢◌,
}
use mytonstorage_gateway.Clients.Remote.Collectors.{new_remote_metrics, remote_collectors}
use mytonstorage_gateway.Clients.Remote.Opened.{
  close, new_client, start_dht_client, start_storage_gate,
}
use mytonstorage_gateway.Cmd.Collectors.{collectors-is_group, db_collectors, remote_subsystem}
use mytonstorage_gateway.Cmd.Config.{
  Config, MetricsConfig, Postgress, Tag, load_config, parse_db, parse_metrics, parse_remote_cache,
  parse_system, parse_templates, parse_ton_storage,
}
use mytonstorage_gateway.Cmd.Postgres.{connect_postgres, new_postgres_config, open_pool, pg_url}
use mytonstorage_gateway.Cmd.Postgres.Url.{read_url, read_url-pg_url}
use mytonstorage_gateway.Cmd.Run.{
  Platform, exit_status, run_process, serve, start_client, start_db, start_metrics, start_templates,
}
use mytonstorage_gateway.Cmd.Run.Course.{IsStarted, served}
use mytonstorage_gateway.Cmd.Run.Ends.{run_process-status_iff}
use mytonstorage_gateway.Cmd.Run.Released.{StopsClient, client_part, run_process-StopsClient}
use mytonstorage_gateway.Dict.{insert, lookup}
use mytonstorage_gateway.HttpServer.Logged.{
  LoggedRequest, health_handler, limit_reached, logger_middleware, logger_middleware-IsTransparent,
  null_json, ok_handler,
}
use mytonstorage_gateway.HttpServer.Metrics.{
  Arrived, Handled, Update, after_next, before_next, http_collectors, new_http_metrics,
}
use mytonstorage_gateway.HttpServer.Metrics.Counted.{
  IsLabelled, Overlap, Overlap-IsCounted, arrive_next, idle, is_answered, is_at, is_closing,
  is_duration, is_opening, is_total, leaves, tally,
}
use mytonstorage_gateway.HttpServer.Response.{answer_body, fresh}
use mytonstorage_gateway.HttpServer.Routes.{
  RoutedRequest, enter_route, find_route, metrics_page, reached, routes, serve_request,
}
use mytonstorage_gateway.HttpServer.Routes.Granted.{Grants, MayEnter, serve_request-Grants}
use mytonstorage_gateway.HttpServer.Tokens.{
  TokenPermissions, add_token, add_tokens, bare_token, configured_tokens, grant, grants,
  has_permission, new_access_tokens, permissions_of, require_permission,
}
use mytonstorage_gateway.HttpServer.Tokens.Format.{
  Grant, IsWritable, configured_tokens-grants_text, grant_text, grants_text, listed, may_measure,
  may_report, unlisted, wanted,
}
use mytonstorage_gateway.Metrics.{is_group}
use mytonstorage_gateway.Models.{GoError, ok, plain_error}
use mytonstorage_gateway.Tests.Sample.{plain_unicode}
use mytonstorage_gateway.Text.{
  Bytes, bytes_eq, is_space, join, lower_byte, lower_from, split, text, to_lower, trim_right_rev,
  trim_space,
}
use mytonstorage_gateway.Text.Escape.{is_unreserved, plus_for_space, query_escape}
use mytonstorage_gateway.Text.Split.{contains_byte-Lacks}

-- Two tokens in the text of a configuration.
abbrev two_grants : List Grant
two_grants = unlisted (text "k1") ∷ listed (text "m2") (may_measure ∷ may_report ∷ []) ∷ []

two_grants-text_test : grants_text two_grants ≡ text "k1;m2:metrics,reports"
unfolding grants_text grant_text join
two_grants-text_test = refl

two_grants-IsWritable : All IsWritable two_grants
two_grants-IsWritable = (
  (
    (λ e. cc),
    (
      (omega arith, omega arith, (λ e. omega (arith, e)), (λ e. omega (arith, e))),
      ((omega arith, omega arith, (λ e. omega (arith, e)), (λ e. omega (arith, e))), tt),
    ),
  ),
  (
    (
      (λ e. cc),
      (
        (omega arith, omega arith, (λ e. omega (arith, e)), (λ e. omega (arith, e))),
        ((omega arith, omega arith, (λ e. omega (arith, e)), (λ e. omega (arith, e))), tt),
      ),
    ),
    tt,
  ),
)

configured_tokens-grants_text_example :
    lookup (text "m2") (configured_tokens (grants_text two_grants)) ≡ wanted (text "m2") two_grants
configured_tokens-grants_text_example =
    configured_tokens-grants_text two_grants (text "m2") two_grants-IsWritable

-- A request for the metrics with the second token, where the digest is the token itself.
abbrev metrics_request : RoutedRequest
metrics_request = record {
  method = text "GET";
  path = text "/api/v1/metrics";
  authorization = text "Bearer m2";
}

metrics_request_test :
    serve_request bytes_eq
      (λ s. s)
      (configured_tokens (grants_text two_grants))
      false
      false
      metrics_request
    ≡ reached metrics_page []
unfolding serve_request find_route enter_route routes configured_tokens grants_text grant_text join
    new_access_tokens add_tokens add_token permissions_of grants grant to_lower lower_byte
    lower_from trim_space is_space trim_right_rev split lookup insert require_permission bare_token
    has_permission
metrics_request_test = refl

serve_request-Grants_example :
    (text "Bearer m2" ≢ [])
    × ((t : TokenPermissions) × Grants two_grants (bare_token (text "Bearer m2")) t
        × MayEnter metrics_page t)
serve_request-Grants_example =
    serve_request-Grants bytes_eq (λ s. s) two_grants false false metrics_request metrics_page []
      two_grants-IsWritable refl metrics_request_test

wanted_test :
    wanted (text "m2") two_grants ≡ some (record { bans = false; reports = true; metrics = true })
unfolding wanted
wanted_test = refl

-- A request that arrives, and one that has left before it.
abbrev a_request : Arrived
a_request = record { route = some (text "/"); method = text "GET" }

abbrev one_log : List Update
one_log = before_next a_request (after_next a_request 200 (before_next a_request []))

abbrev one_left : Overlap one_log (a_request ∷ []) ((a_request, 200) ∷ [])
one_left =
    arrive_next a_request _ [] _ (
      leaves a_request 200 (before_next a_request []) [] [] []
        (arrive_next a_request [] [] [] idle))

Overlap-IsCounted_example :
    (tally (is_opening (text "<unmatched>" ∷ text "GET" ∷ [])) one_log
      ≡ tally (is_closing (text "<unmatched>" ∷ text "GET" ∷ [])) one_log
        + tally (is_at (text "<unmatched>") (text "GET")) (a_request ∷ []))
    × (tally (is_total (text "<unmatched>" ∷ text "GET" ∷ text "200" ∷ [])) one_log
        ≡ tally
            (is_answered (text "<unmatched>") (text "GET") (text "200"))
            ((a_request, 200) ∷ []))
    × (tally (is_duration (text "<unmatched>" ∷ text "GET" ∷ text "200" ∷ [])) one_log
        ≡ tally
            (is_answered (text "<unmatched>") (text "GET") (text "200"))
            ((a_request, 200) ∷ []))
    × All (IsLabelled (new_http_metrics (text "n") (text "s"))) one_log
Overlap-IsCounted_example =
    Overlap-IsCounted one_log (a_request ∷ []) ((a_request, 200) ∷ []) (text "n") (text "s")
      (text "<unmatched>") (text "GET") (text "200") one_left

abbrev sample_metrics : MetricsConfig
sample_metrics = record {
  namespace = text "ton-storage";
  server_subsystem = text "mtpo-server";
  workers_subsystem = text "mtpo-workers";
  db_subsystem = text "mtpo-db";
}

collectors-is_group_test :
    (is_group (text "ton-storage") (text "mtpo-db") (db_collectors sample_metrics) ≡ true)
    × (is_group
          (text "ton-storage")
          remote_subsystem
          (remote_collectors (new_remote_metrics (text "ton-storage") remote_subsystem))
        ≡ true)
    × (is_group
          (text "ton-storage")
          (text "mtpo-server")
          (http_collectors (new_http_metrics (text "ton-storage") (text "mtpo-server")))
        ≡ true)
collectors-is_group_test = collectors-is_group sample_metrics

-- A password with a space.
abbrev sample_db : Postgress
sample_db = record {
  host = text "db";
  port = text "5432";
  user = text "u";
  password = text "a b";
  name = text "n";
}

sample_url_test : pg_url sample_db ≡ text "postgres://u:a+b@db:5432/n"
unfolding pg_url query_escape is_unreserved
sample_url_test = refl

read_url-pg_url_example :
    read_url (pg_url sample_db)
    ≡ some (record {
      user = map plus_for_space (text "u");
      password = map plus_for_space (text "a b");
      address = text "db:5432";
    })
read_url-pg_url_example =
    read_url-pg_url sample_db (omega arith, tt) (omega arith, (omega arith, (omega arith, tt)))
      (
        (contains_byte-Lacks b'/' (text "db") refl, contains_byte-Lacks b'@' (text "db") refl),
        (contains_byte-Lacks b'/' (text "5432") refl, contains_byte-Lacks b'@' (text "5432") refl),
      )

-- A platform on which every step succeeds, and every variable has its default.
abbrev or_name : Tag → Bytes
or_name t = elim t.env_default [ none ↦ t.env | some value ↦ value ]

abbrev sample_platform : Platform
sample_platform = record {
  environment = record {
    string_field = λ t. ok (or_name t);
    uint8_field = λ t. ok 1;
    int_field = λ t. ok (pos 1000);
  };
  registry = record { Registered = ℕ; must_register = λ l n. some (suc n) };
  registered = 0;
  driver = record {
    Parsed = Bytes;
    parse_config = λ url. ok url;
    new_with_config = λ cfg. none;
    acquire = λ cfg. none;
    ping = λ cfg. none;
  };
  faults = record {
    get_config = λ url. none;
    listen = none;
    dht_key = none;
    start_dht = none;
    new_dht_client = none;
    storage_key = none;
    start_storage = none;
  };
  parse_glob = λ pattern. none;
  listen = λ address. none;
  shutdown = none;
}

run_process_test :
    (exit_status (run_process sample_platform).ending ≡ 0)
    × (served (run_process sample_platform).events ≡ some (text ":9093", []))
unfolding run_process start_metrics start_db start_client start_templates serve load_config
    parse_system parse_ton_storage parse_metrics parse_remote_cache parse_db parse_templates
    connect_postgres new_postgres_config open_pool new_client start_dht_client start_storage_gate
    exit_status served configured_tokens new_access_tokens add_tokens add_token split trim_space
    close
run_process_test = (refl, refl)

-- The port is in use.
abbrev busy_platform : Platform
busy_platform = record sample_platform { listen = λ address. some (plain_error address) }

busy_test :
    (exit_status (run_process busy_platform).ending ≡ 0)
    × (served (run_process busy_platform).events ≡ none)
unfolding run_process start_metrics start_db start_client start_templates serve load_config
    parse_system parse_ton_storage parse_metrics parse_remote_cache parse_db parse_templates
    connect_postgres new_postgres_config open_pool new_client start_dht_client start_storage_gate
    exit_status served configured_tokens new_access_tokens add_tokens add_token split trim_space
    close
busy_test = (refl, refl)

run_process-status_iff_test : (exit_status (run_process sample_platform).ending ≡ 0) ↔ (
    ((config : Config) × IsStarted sample_platform config) × (◌≡◌ {A = Option GoError} none none))
run_process-status_iff_test = run_process-status_iff sample_platform

run_process-StopsClient_example : StopsClient (client_part (run_process sample_platform).events)
run_process-StopsClient_example = run_process-StopsClient sample_platform

-- A request with a secret.
abbrev secret_request : LoggedRequest
secret_request = record {
  method = text "GET";
  url = text "/";
  headers = (text "Authorization", text "t" ∷ []) ∷ (text "Accept", text "a" ∷ []) ∷ [];
  body = [];
}

abbrev answering_next : ℕ → Handled × ℕ
answering_next w = (record { error = none; status = 200 }, suc w)

logger_middleware-IsTransparent_example :
    ((logger_middleware secret_request answering_next 0).0 ≡ answering_next 0)
    × ((logger_middleware secret_request answering_next 0).1.status_code ≡ 200)
    × (lookup (text "Authorization") (logger_middleware secret_request answering_next 0).1.headers
        ≡ none)
logger_middleware-IsTransparent_example =
    logger_middleware-IsTransparent secret_request answering_next 0 (text "Authorization")

-- Where the limit is reached the authorization is logged, and `health` answers null.
limit_and_health_test :
    (lookup (text "Authorization") (limit_reached secret_request).1 ≡ some (text "t" ∷ []))
    × ((health_handler fresh).body ≡ answer_body null_json)
unfolding limit_reached health_handler ok_handler lookup
limit_and_health_test = (refl, refl)
