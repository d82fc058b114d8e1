-- ===== src/Tests/Requests.antt =====
-- Requests: tokens, responses and templates.
use mytonstorage_gateway.Common.{
  List, Option, [], false, none, refl, some, true, ℕ, ◌+◌, ◌||◌, ◌↔◌, ◌∷◌, ◌≡◌, ◌≢◌, ◌⊎◌,
}
use mytonstorage_gateway.Dict.{delete, insert, lookup}
use mytonstorage_gateway.FilePath.{
  base, before, clean, clean_from, clean_step, ext, render, split_file,
}
use mytonstorage_gateway.HttpServer.Gateway.{
  Request, Site, get_bag_info_response, look_up, refuse, should_serve_loading_shell,
}
use mytonstorage_gateway.HttpServer.Gateway.Checked.{IsAsked, get_bag_info_response-IsAsked}
use mytonstorage_gateway.HttpServer.Response.{
  Sent, application_json, error_body, error_handler, error_reply, fresh, map_app_error,
  map_path_info_error,
}
use mytonstorage_gateway.HttpServer.Routes.{
  RoutedRequest, denied, enter_route, find_route, list_bans, put_bans, reached, routes,
  serve_request,
}
use mytonstorage_gateway.HttpServer.Routes.Guarded.{given_headers, serve_request-HasNeeded}
use mytonstorage_gateway.HttpServer.Serve.{
  Answer, Host, found, send_file, send_from_disk, serve_file, sized_type, stream,
  stream_with_deadline,
}
use mytonstorage_gateway.HttpServer.Serve.Limits.{
  IsWithinLimits, answer_of, serve_file-IsWithinLimits,
}
use mytonstorage_gateway.HttpServer.Tokens.{
  TokenPermissions, add_token, add_tokens, bare_token, grant, grants, has_permission,
  new_access_tokens, no_permission, permissions_of, require_permission,
}
use mytonstorage_gateway.HttpServer.Tokens.Rights.{
  IsClosed, grants_exact, names, new_access_tokens-IsClosed, require_permission-bans,
  require_permission_iff,
}
use mytonstorage_gateway.HttpServer.Validate.{
  hex_loop, is_lower_hex, sanitize_path, sanitize_trimmed, validate_bag_id,
}
use mytonstorage_gateway.Models.{Result, app, fiber, new_app_error, not_acceptable_error_code, ok}
use mytonstorage_gateway.Services.Files.{FolderInfo, empty_info}
use mytonstorage_gateway.Services.Files.Listing.{file_entry}
use mytonstorage_gateway.Services.Files.Monad.{State}
use mytonstorage_gateway.Services.Files.Service.{get_path_info}
use mytonstorage_gateway.Templates.{
  TemplateData, content_type, content_type_of, document_icon, file_icon, first_format, format_size,
  saved_as, scale, shown_as, text_mime, without_dot,
}
use mytonstorage_gateway.Templates.Media.{IsServedAs, content_type-IsServedAs, file_icon-plain}
use mytonstorage_gateway.Tests.Sample.{plain_unicode, sample_outside, start}
use mytonstorage_gateway.Text.{
  Bytes, bytes_eq, cut_prefix, has_suffix, is_space, join, lower_byte, lower_from, split, text,
  to_lower, trim_right_rev, trim_space,
}
use mytonstorage_gateway.Text.Decimal.{decimal, digits_rev}
use mytonstorage_gateway.Text.Unescape.{hex_value, query_unescape, unescape_from}

token_code : Unit {0}
unfolding new_access_tokens add_tokens add_token permissions_of grants grant to_lower lower_byte
    lower_from trim_space is_space trim_right_rev split lookup insert delete require_permission
    bare_token has_permission
token_code = tt

-- Two tokens: "k" may ban, and "m" may see the metrics.
abbrev config : List Bytes
config = text "k: Bans" ∷ text "m:metrics,other" ∷ text " :all" ∷ []

abbrev bans_and_reports : TokenPermissions
bans_and_reports = record { bans = true; reports = true; metrics = false }

config_test :
    (lookup (text "k") (new_access_tokens config) ≡ some bans_and_reports)
    × (lookup (text "") (new_access_tokens config) ≡ none)
unfolding token_code
config_test = (refl, refl)

bearer_test :
    require_permission (λ s. s) (new_access_tokens config) (text "bans") (text "Bearer k") ≡ none
unfolding token_code
bearer_test = refl

new_access_tokens-IsClosed_test : (text "k" ≢ []) × IsClosed bans_and_reports
unfolding token_code
new_access_tokens-IsClosed_test =
    new_access_tokens-IsClosed config (text "k") bans_and_reports (config_test.0)

grants_exact_test :
    ((grants (text "all" ∷ []) no_permission).bans
      ≡ (false || (names (text "all" ∷ []) (text "bans") || names (text "all" ∷ []) (text "all"))))
    × ((grants (text "all" ∷ []) no_permission).reports ≡ (
        false
        || (names (text "all" ∷ []) (text "bans")
            || (names (text "all" ∷ []) (text "reports") || names (text "all" ∷ []) (text "all")))))
    × ((grants (text "all" ∷ []) no_permission).metrics ≡ (
        false
        || (names (text "all" ∷ []) (text "metrics") || names (text "all" ∷ []) (text "all"))))
grants_exact_test = grants_exact (text "all" ∷ []) no_permission

require_permission_iff_test :
    (require_permission (λ s. s) (new_access_tokens config) (text "bans") (text "k") ≡ none) ↔ (
      (text "k" ≢ [])
      × ((t : TokenPermissions) × (lookup (bare_token (text "k")) (new_access_tokens config)
            ≡ some t)
          × (has_permission (text "bans") t ≡ true)))
require_permission_iff_test =
    require_permission_iff (λ s. s) (new_access_tokens config) (text "bans") (text "k")

require_permission-bans_test :
    require_permission (λ s. s) (new_access_tokens config) (text "reports") (text "Bearer k") ≡ none
require_permission-bans_test = require_permission-bans (λ s. s) config (text "Bearer k") bearer_test

-- A disk with one file of three bytes.
abbrev sample_host : Host
sample_host = record {
  lstat = λ p. some 3;
  stat = λ p. found 3;
  open_file = λ p. some (text "abc");
  read_file = λ p. ok (text "abc");
  read_stream = λ content n. ok content;
  wrap_html = λ s. ok s;
}

abbrev on_disk : FolderInfo
on_disk = record empty_info { single_file_path = text "/b/x.txt" }

serve_test :
    answer_of
      (serve_file sample_host on_disk (shown_as (text "text/plain; charset=utf-8") false) fresh)
    ≡ some (stream (text "abc") 3)
unfolding serve_file sized_type send_file send_from_disk stream_with_deadline
serve_test = refl

serve_file-IsWithinLimits_example :
    IsWithinLimits sample_host (text "/b/x.txt") (stream (text "abc") 3)
serve_file-IsWithinLimits_example =
    serve_file-IsWithinLimits sample_host on_disk
      (shown_as (text "text/plain; charset=utf-8") false) fresh (stream (text "abc") 3) refl
      serve_test

abbrev plain_request : Request
plain_request = record { direct = text "1"; sec_fetch_dest = []; accept = [] }

abbrev execute : Bytes → Option TemplateData → Result Bytes
execute name data' = ok name

abbrev sample_site : Site
sample_site = record {
  World = State sample_outside.World;
  files = get_path_info sample_outside;
  host = sample_host;
  to_upper = λ s. s;
  execute = execute;
}

-- A site on which every bag is banned, which is counted.
abbrev banned_site : Site
banned_site = record {
  World = ℕ;
  files = λ bag_id path w. some (
    (empty_info, some (app (new_app_error not_acceptable_error_code (text "bag is banned")))),
    w + 1,
  );
  host = sample_host;
  to_upper = λ s. s;
  execute = execute;
}

abbrev some_id : Bytes
some_id = text "00000000000000000000000000000000000000000000000000000000000000aa"

bad_id_test :
    get_bag_info_response sample_site plain_request (text "zz") [] start
    ≡ some (refuse (fiber 400 (text "invalid bagid")), start)
unfolding get_bag_info_response validate_bag_id
bad_id_test = refl

abbrev never_asked : ℕ
never_asked = 0

abbrev asked_once : ℕ
asked_once = 1

abbrev is_banned_response : Sent Answer
is_banned_response = record fresh {
  status = 406;
  content_type = application_json;
  body = error_body (text "bag is banned");
}

asked_test :
    get_bag_info_response banned_site plain_request some_id (text "x") 0
    ≡ some (is_banned_response, 1)
unfolding get_bag_info_response look_up validate_bag_id hex_loop is_lower_hex to_lower lower_from
    lower_byte sanitize_path sanitize_trimmed trim_space is_space trim_right_rev clean clean_from
    clean_step render split join should_serve_loading_shell error_handler error_reply
    map_path_info_error map_app_error new_app_error
asked_test = refl

get_bag_info_response-IsAsked_example :
    (asked_once ≡ never_asked) ⊎ IsAsked banned_site some_id (text "x") never_asked asked_once
get_bag_info_response-IsAsked_example =
    get_bag_info_response-IsAsked banned_site plain_request some_id (text "x") never_asked
      asked_once is_banned_response asked_test

type_test :
    (content_type (text "a.HTML") ≡ shown_as (text "text/html; charset=utf-8") true)
    × (content_type (text "a.doc") ≡ shown_as (text "text/plain; charset=utf-8") false)
    × (content_type (text "a.zip") ≡ saved_as (text "a.zip"))
unfolding content_type content_type_of first_format has_suffix ext without_dot cut_prefix to_lower
    lower_from lower_byte text_mime before
type_test = (refl, refl, refl)

content_type-IsServedAs_example : IsServedAs (text "a.zip") (content_type (text "a.zip"))
content_type-IsServedAs_example = content_type-IsServedAs (text "a.zip")

size_test : format_size 1536 ≡ text "1 KB"
unfolding format_size scale decimal digits_rev
size_test = refl

file_icon-plain_test : file_icon (file_entry (text "cat.jpg") 3) ≡ document_icon
unfolding base split_file
file_icon-plain_test = file_icon-plain (file_entry (text "cat.jpg") 3) refl

unescape_test : query_unescape (text "a%20b+c%2F") ≡ some (text "a b c/")
unfolding query_unescape unescape_from hex_value
unescape_test = refl

abbrev bans_request : RoutedRequest
bans_request = record {
  method = text "PUT";
  path = text "/api/v1/bans";
  authorization = text "Bearer k";
}

abbrev no_headers : List (Bytes × Bytes)
no_headers = []

bearer_routed_test :
    serve_request bytes_eq (λ s. s) (new_access_tokens config) false false bans_request
    ≡ reached put_bans no_headers
unfolding token_code serve_request find_route enter_route routes
bearer_routed_test = refl

-- A HEAD request meets the guard of the GET route.
head_test :
    serve_request bytes_eq
      (λ s. s)
      (new_access_tokens config)
      false
      false
      (record bans_request { method = text "HEAD"; authorization = [] })
    ≡ denied (fiber 401 (text "unauthorized"))
unfolding token_code serve_request find_route enter_route routes
head_test = refl

head_token_test :
    serve_request bytes_eq
      (λ s. s)
      (new_access_tokens config)
      false
      false
      (record bans_request { method = text "HEAD" })
    ≡ reached list_bans no_headers
unfolding token_code serve_request find_route enter_route routes
head_token_test = refl

serve_request-HasNeeded_example :
    (require_permission (λ s. s) (new_access_tokens config) (text "bans") (text "Bearer k") ≡ none)
    × (no_headers ≡ given_headers put_bans)
serve_request-HasNeeded_example =
    serve_request-HasNeeded bytes_eq (λ s. s) (new_access_tokens config) false false bans_request
      put_bans no_headers bearer_routed_test
