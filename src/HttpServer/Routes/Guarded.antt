-- ===== src/HttpServer/Routes/Guarded.antt =====
-- No request reaches a guarded handler without its permission.
use mathlib.Core.Path.{subst}
use mytonstorage_gateway.Common.{
  All, Bool, Bool-cases, List, Option, [], ap, arith, if◌then◌else◌, inl, inr, none, refl, some,
  sym, ◌&&◌, ◌∙◌, ◌∷◌, ◌≡◌,
}
use mytonstorage_gateway.HttpServer.Routes.{
  Endpoint, Route, RoutedRequest, answers_method, bag_reports, enter_found, enter_route, find_route,
  get_bag_page, get_path_page, health, list_bans, list_reports, metrics_page, post_report, put_bans,
  reached, routes, security_headers, serve_request, show_ban,
}
use mytonstorage_gateway.HttpServer.Tokens.{TokenPermissions, require_permission}
use mytonstorage_gateway.Text.{Bytes, Unicode, text}

-- The permission that a handler is to be guarded by, if any.
abbrev pub needed : Endpoint → Option Bytes
needed health = none
needed metrics_page = some (text "metrics")
needed get_bag_page = none
needed get_path_page = none
needed list_reports = some (text "reports")
needed post_report = some (text "reports")
needed bag_reports = some (text "reports")
needed list_bans = some (text "bans")
needed put_bans = some (text "bans")
needed show_ban = some (text "bans")

-- The headers that a handler is to be given.
abbrev pub given_headers : Endpoint → List (Bytes × Bytes)
given_headers health = []
given_headers metrics_page = []
given_headers get_bag_page = security_headers
given_headers get_path_page = security_headers
given_headers list_reports = []
given_headers post_report = []
given_headers bag_reports = []
given_headers list_bans = []
given_headers put_bans = []
given_headers show_ban = []

-- A route is guarded as its handler needs.
abbrev IsGuarded : Route → Type 0
IsGuarded r =
    (r.permission ≡ needed r.endpoint)
    × ((if r.has_security_headers then security_headers else []) ≡ given_headers r.endpoint)

routes-IsGuarded : All IsGuarded routes
unfolding routes
routes-IsGuarded = (
  (refl, refl),
  (
    (refl, refl),
    (
      (refl, refl),
      (
        (refl, refl),
        (
          (refl, refl),
          ((refl, refl), ((refl, refl), ((refl, refl), ((refl, refl), ((refl, refl), tt))))),
        ),
      ),
    ),
  ),
)

find_route-IsGuarded :
    (matches : Bytes → Bytes → Bool) (req : RoutedRequest) (rs : List Route) (r : Route)
    → All IsGuarded rs
    → find_route matches req rs ≡ some r
    → IsGuarded r
unfolding find_route
find_route-IsGuarded matches req [] r h e = absurd (ground (arith, e))
find_route-IsGuarded matches req (q ∷ rs) r (h, hs) e =
    elim (Bool-cases (answers_method q.method req.method && matches q.pattern req.path)) [
      | inl hit ↦ let same : q ≡ r = ground (arith, e, hit) in subst IsGuarded same h
      | inr miss ↦ find_route-IsGuarded matches req rs r hs (ground (arith, e, miss))
    ]

module _ ⦃u : Unicode⦄ (matches : Bytes → Bytes → Bool) (md5 : Bytes → Bytes)
    (tokens : List (Bytes × TokenPermissions)) where
  -- The authorization has the permission, if one is needed.
  abbrev pub HasNeeded : Option Bytes → Bytes → Type 0
  HasNeeded none authorization = Unit
  HasNeeded (some permission) authorization =
      require_permission md5 tokens permission authorization ≡ none

  entered :
      (req : RoutedRequest) (r : Route) (endpoint : Endpoint) (headers : List (Bytes × Bytes))
      → enter_route matches md5 tokens req r ≡ reached endpoint headers
      → (r.endpoint ≡ endpoint)
        × ((if r.has_security_headers then security_headers else []) ≡ headers)
  unfolding enter_route
  entered req r endpoint headers e = ground (arith, e)

  entered-HasNeeded :
      (req : RoutedRequest) (r : Route) (endpoint : Endpoint) (headers : List (Bytes × Bytes))
      (permission : Option Bytes)
      → enter_route matches md5 tokens req r ≡ reached endpoint headers
      → r.permission ≡ permission
      → HasNeeded permission req.authorization
  unfolding enter_route
  entered-HasNeeded req r endpoint headers none e h = tt
  entered-HasNeeded req r endpoint headers (some p) e h = ground (arith, e, h)

  -- A request that reaches a handler, however the patterns match its path, has an authorization with
  -- the permission that the handler needs, if it needs one: "metrics" for the metrics, "reports" for
  -- each handler of the reports and "bans" for each handler of the bans. And the handlers that
  -- serve the content of bags, and only they, are run with the security headers set.
  pub serve_request-HasNeeded :
      (is_debug is_limited : Bool) (req : RoutedRequest) (endpoint : Endpoint)
      (headers : List (Bytes × Bytes))
      → serve_request matches md5 tokens is_debug is_limited req ≡ reached endpoint headers
      → HasNeeded (needed endpoint) req.authorization × (headers ≡ given_headers endpoint)
  unfolding serve_request
  serve_request-HasNeeded is_debug is_limited req endpoint headers e =
      go (find_route matches req routes) refl (ground (arith, e))
    where
      go :
          (hit : Option Route)
          → find_route matches req routes ≡ hit
          → enter_found matches md5 tokens req (find_route matches req routes)
            ≡ reached endpoint headers
          → HasNeeded (needed endpoint) req.authorization × (headers ≡ given_headers endpoint)
      go none f e' = absurd (ground (arith, f, e'))
      go (some r) f e' =
          let into : enter_route matches md5 tokens req r ≡ reached endpoint headers =
            ground (arith, f, e') in
          let (same, sent) = entered req r endpoint headers into in
          let (guarded, secured) = find_route-IsGuarded matches req routes r routes-IsGuarded f in
          (
            entered-HasNeeded req r endpoint headers (needed endpoint) into
                (guarded ∙ ap needed same),
            sym sent ∙ secured ∙ ap given_headers same,
          )
