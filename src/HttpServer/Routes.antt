-- ===== src/HttpServer/Routes.antt =====
-- `RegisterRoutes` of pkg/httpServer/router.go and, for a debug build, router_debug.go: which
-- handler a request reaches. How a pattern matches a path and the counting of the rate limiter are
-- the framework's, and parameters; logging and metrics are left out.
pub mod Guarded
pub mod Debug
pub mod Granted
use mytonstorage_gateway.Common.{
  Bool, List, Option, [], false, if◌then◌else◌, none, some, true, ◌&&◌, ◌||◌, ◌∷◌,
}
use mytonstorage_gateway.HttpServer.Tokens.{TokenPermissions, require_permission}
use mytonstorage_gateway.Models.{GoError}
use mytonstorage_gateway.Text.{Bytes, Unicode, bytes_eq, text}

-- The handlers.
pub data Endpoint : Type 0 where
  health metrics_page get_bag_page get_path_page : Endpoint
  list_reports post_report bag_reports : Endpoint
  list_bans put_bans show_ban : Endpoint

-- A registered route: its permission, if `requirePermission` stands before its handler, and whether
-- it belongs to the group of `securityHeadersMiddleware`.
pub record Route : Type 0 where
  pub method : Bytes
  pub pattern : Bytes
  pub permission : Option Bytes
  pub has_security_headers : Bool
  pub endpoint : Endpoint

abbrev pub route : Bytes → Bytes → Option Bytes → Endpoint → Route
route method pattern permission endpoint = record {
  method = method;
  pattern = pattern;
  permission = permission;
  has_security_headers = false;
  endpoint = endpoint;
}

abbrev pub gateway_route : Bytes → Endpoint → Route
gateway_route pattern endpoint = record (route (text "GET") pattern none endpoint) {
  has_security_headers = true;
}

unfoldable pub routes : List Route
routes =
    route (text "GET") (text "/api/v1/health") none health
    ∷ route (text "GET") (text "/api/v1/metrics") (some (text "metrics")) metrics_page
    ∷ gateway_route (text "/api/v1/gateway/:bagid") get_bag_page
    ∷ gateway_route (text "/api/v1/gateway/:bagid/*") get_path_page
    ∷ route (text "GET") (text "/api/v1/reports") (some (text "reports")) list_reports
    ∷ route (text "POST") (text "/api/v1/reports") (some (text "reports")) post_report
    ∷ route (text "GET") (text "/api/v1/reports/:bagid") (some (text "reports")) bag_reports
    ∷ route (text "GET") (text "/api/v1/bans") (some (text "bans")) list_bans
    ∷ route (text "PUT") (text "/api/v1/bans") (some (text "bans")) put_bans
    ∷ route (text "GET") (text "/api/v1/bans/:bagid") (some (text "bans")) show_ban
    ∷ []

-- `securityHeadersMiddleware`
abbrev pub security_headers : List (Bytes × Bytes)
security_headers =
    (text "Content-Security-Policy", text "sandbox allow-scripts allow-forms allow-downloads")
    ∷ (text "X-Frame-Options", text "DENY")
    ∷ (text "X-Content-Type-Options", text "nosniff")
    ∷ (text "Referrer-Policy", text "no-referrer")
    ∷ []

pub record RoutedRequest : Type 0 where
  pub method : Bytes
  pub path : Bytes
  pub authorization : Bytes

-- Where a request ends: at the answer to OPTIONS of a debug build, at the rate limiter, at no route,
-- at the check of its permission, or at a handler, with the headers that are set before it.
pub data Outcome : Type 0 where
  options_answered limited no_route : Outcome
  denied : GoError → Outcome
  reached : Endpoint → List (Bytes × Bytes) → Outcome

-- A route that is registered by `Get` answers HEAD too.
abbrev pub answers_method : Bytes → Bytes → Bool
answers_method registered asked =
    bytes_eq registered asked || (bytes_eq registered (text "GET") && bytes_eq asked (text "HEAD"))

module _ (matches : Bytes → Bytes → Bool) where
  -- The first route that answers the method and whose pattern matches the path.
  unfoldable pub find_route : RoutedRequest → List Route → Option Route
  find_route req [] = none
  find_route req (r ∷ rs) =
      let rest = find_route req rs in
      if answers_method r.method req.method && matches r.pattern req.path then some r else rest

module _ ⦃u : Unicode⦄ (matches : Bytes → Bytes → Bool) (md5 : Bytes → Bytes)
    (tokens : List (Bytes × TokenPermissions)) where
  abbrev pub run_route : Route → Outcome
  run_route r = reached r.endpoint (if r.has_security_headers then security_headers else [])

  -- The route's own chain of handlers.
  unfoldable pub enter_route : RoutedRequest → Route → Outcome
  enter_route req r = elim r.permission [
    | none ↦ run_route r
    | some permission ↦ elim (require_permission md5 tokens permission req.authorization) [
      | some e ↦ denied e
      | none ↦ run_route r
    ]
  ]

  abbrev pub enter_found : RoutedRequest → Option Route → Outcome
  enter_found req none = no_route
  enter_found req (some r) = enter_route req r

  unfoldable pub serve_request : Bool → Bool → RoutedRequest → Outcome
  serve_request is_debug is_limited req =
      if is_debug && bytes_eq req.method (text "OPTIONS")
      then options_answered
      else if is_limited
      then limited
      else enter_found req (find_route matches req routes)
