-- ===== src/HttpServer/Routes/Debug.antt =====
-- `RegisterRoutes` of pkg/httpServer/router_debug.go: the answer to OPTIONS with its headers, and the
-- routes of a debug build, as that file lists them.
use mytonstorage_gateway.Common.{
  Bool, List, Option, [], if◌then◌else◌, none, refl, some, true, ◌++◌, ◌∷◌, ◌≡◌,
}
use mytonstorage_gateway.HttpServer.Routes.{
  Outcome, Route, RoutedRequest, bag_reports, enter_found, find_route, gateway_route, get_bag_page,
  get_path_page, health, limited, list_bans, list_reports, metrics_page, options_answered,
  post_report, put_bans, route, routes, serve_request, show_ban,
}
use mytonstorage_gateway.HttpServer.Tokens.{TokenPermissions}
use mytonstorage_gateway.Text.{Bytes, Unicode, bytes_eq, text}

-- The headers that are set on every response.
abbrev pub cors_headers : List (Bytes × Bytes)
cors_headers =
    (text "Access-Control-Allow-Origin", text "*")
    ∷ (text "Access-Control-Allow-Methods", text "GET,POST,PUT,DELETE,OPTIONS")
    ∷ (text "Access-Control-Allow-Headers", text "*")
    ∷ []

unfoldable pub debug_routes : List Route
debug_routes =
    let v1 : Bytes → Bytes = λ path. text "/api/v1" ++ path in
    let gateway : Bytes → Bytes = λ path. v1 (text "/gateway" ++ path) in
    let reports : Bytes → Bytes = λ path. v1 (text "/reports" ++ path) in
    let bans : Bytes → Bytes = λ path. v1 (text "/bans" ++ path) in
    let require_reports : Option Bytes = some (text "reports") in
    let require_bans : Option Bytes = some (text "bans") in
    route (text "GET") (v1 (text "/health")) none health
    ∷ route (text "GET") (v1 (text "/metrics")) (some (text "metrics")) metrics_page
    ∷ gateway_route (gateway (text "/:bagid")) get_bag_page
    ∷ gateway_route (gateway (text "/:bagid/*")) get_path_page
    ∷ route (text "GET") (reports []) require_reports list_reports
    ∷ route (text "POST") (reports []) require_reports post_report
    ∷ route (text "GET") (reports (text "/:bagid")) require_reports bag_reports
    ∷ route (text "GET") (bans []) require_bans list_bans
    ∷ route (text "PUT") (bans []) require_bans put_bans
    ∷ route (text "GET") (bans (text "/:bagid")) require_bans show_ban
    ∷ []

module _ ⦃u : Unicode⦄ (matches : Bytes → Bytes → Bool) (md5 : Bytes → Bytes)
    (tokens : List (Bytes × TokenPermissions)) where
  -- The chain of handlers of a debug build: the headers it sets first, and where a request ends.
  unfoldable pub serve_debug_request : Bool → RoutedRequest → List (Bytes × Bytes) × Outcome
  serve_debug_request is_limited req = (
    cors_headers,
    if bytes_eq req.method (text "OPTIONS")
        then options_answered
        else if is_limited
        then limited
        else enter_found matches md5 tokens req (find_route matches req debug_routes),
  )

  -- A debug build ends each request where `serve_request` says it does: apart from OPTIONS, as a
  -- release build does.
  pub serve_debug_request_lem :
      (is_limited : Bool) (req : RoutedRequest)
      → (serve_debug_request is_limited req).1
        ≡ serve_request matches md5 tokens true is_limited req
  unfolding serve_debug_request serve_request debug_routes routes
  serve_debug_request_lem is_limited req = refl
