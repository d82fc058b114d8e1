-- ===== src/HttpServer/Routes/Granted.antt =====
-- From the configuration of cmd/config.go to the handlers that pkg/httpServer/router.go guards.
use mathlib.Core.Path.{subst}
use mytonstorage_gateway.Common.{
  All, Bool, List, Option-cases, [], ap, arith, false, inl, inr, none, some, sym, true, ◌∙◌, ◌∷◌,
  ◌≡◌, ◌≢◌,
}
use mytonstorage_gateway.HttpServer.Copied.{passed}
use mytonstorage_gateway.HttpServer.Routes.{
  Endpoint, RoutedRequest, bag_reports, get_bag_page, get_path_page, health, list_bans,
  list_reports, metrics_page, post_report, put_bans, reached, serve_request, show_ban,
}
use mytonstorage_gateway.HttpServer.Routes.Guarded.{HasNeeded, needed, serve_request-HasNeeded}
use mytonstorage_gateway.HttpServer.Tokens.{
  TokenPermissions, bare_token, configured_tokens, grants, has_permission, require_permission,
}
use mytonstorage_gateway.HttpServer.Tokens.Format.{
  Grant, IsWritable, allowed, configured_tokens-grants_text, grants_text, hash_of, wanted,
}
use mytonstorage_gateway.HttpServer.Tokens.Rights.{require_permission_iff}
use mytonstorage_gateway.Text.{Bytes, Unicode, text}
use mytonstorage_gateway.Text.Laws.{bytes_eq_iff}

-- One of the tokens of the configuration has that hash and may do that.
pub data Grants : List Grant → Bytes → TokenPermissions → Type 0 where
  first_grant : (g : Grant) (grants : List Grant) → Grants (g ∷ grants) (hash_of g) (allowed g)
  later_grant :
      (g : Grant) (grants : List Grant) (hash : Bytes) (t : TokenPermissions)
      → Grants grants hash t
      → Grants (g ∷ grants) hash t

wanted-Grants :
    (hash : Bytes) (grants : List Grant) (t : TokenPermissions)
    → wanted hash grants ≡ some t
    → Grants grants hash t
unfolding wanted
wanted-Grants hash [] t e = absurd (ground (arith, e))
wanted-Grants hash (g ∷ grants) t e = elim (Option-cases (wanted hash grants)) [
  | inr (r, h) ↦
      let same : r ≡ t = ground (arith, h, e) in
      later_grant g grants hash t (wanted-Grants hash grants t (h ∙ ap some same))
  | inl h ↦
      let this : hash_of g ≡ hash = ground (arith, h, e, bytes_eq_iff (hash_of g) hash) in
      let can : allowed g ≡ t = ground (arith, h, e) in
      subst (λ (k : Bytes). Grants (g ∷ grants) k t) this
        (subst (Grants (g ∷ grants) (hash_of g)) can (first_grant g grants))
]

-- What a token must be able to do for a handler.
abbrev pub MayEnter : Endpoint → TokenPermissions → Type 0
MayEnter health t = Unit
MayEnter get_bag_page t = Unit
MayEnter get_path_page t = Unit
MayEnter metrics_page t = t.metrics ≡ true
MayEnter list_reports t = t.reports ≡ true
MayEnter post_report t = t.reports ≡ true
MayEnter bag_reports t = t.reports ≡ true
MayEnter list_bans t = t.bans ≡ true
MayEnter put_bans t = t.bans ≡ true
MayEnter show_ban t = t.bans ≡ true

-- The handlers of the reports, of the bans and of the metrics.
abbrev pub is_guarded : Endpoint → Bool
is_guarded health = false
is_guarded get_bag_page = false
is_guarded get_path_page = false
is_guarded metrics_page = true
is_guarded list_reports = true
is_guarded post_report = true
is_guarded bag_reports = true
is_guarded list_bans = true
is_guarded put_bans = true
is_guarded show_ban = true

module _ ⦃u : Unicode⦄ (matches : Bytes → Bytes → Bool) (md5 : Bytes → Bytes) where
  -- A guarded handler is reached with a token of the configuration.
  granted :
      (grants : List Grant) (authorization permission : Bytes)
      → All IsWritable grants
      → require_permission md5 (configured_tokens (grants_text grants)) permission authorization
        ≡ none
      → (authorization ≢ [])
        × ((t : TokenPermissions) × Grants grants (md5 (bare_token authorization)) t
            × (has_permission permission t ≡ true))
  granted grants authorization permission writable passed =
      let hash = md5 (bare_token authorization) in
      let (present, (t, there, has)) =
        (require_permission_iff md5 (configured_tokens (grants_text grants)) permission
            authorization).0
          passed in
      (
        present,
        (
          t,
          wanted-Grants hash grants t
              (sym (configured_tokens-grants_text grants hash writable) ∙ there),
          has,
        ),
      )

  -- By the handler: the name of its permission stands for one field.
  entered-Grants :
      (grants : List Grant) (authorization : Bytes) (endpoint : Endpoint)
      → All IsWritable grants
      → is_guarded endpoint ≡ true
      → HasNeeded matches md5
          (configured_tokens (grants_text grants))
          (needed endpoint)
          authorization
      → (authorization ≢ [])
        × ((t : TokenPermissions) × Grants grants (md5 (bare_token authorization)) t
            × MayEnter endpoint t)
  unfolding has_permission
  entered-Grants grants a health w g h = cc
  entered-Grants grants a get_bag_page w g h = cc
  entered-Grants grants a get_path_page w g h = cc
  entered-Grants grants a metrics_page w g h = granted grants a (text "metrics") w h
  entered-Grants grants a list_reports w g h = granted grants a (text "reports") w h
  entered-Grants grants a post_report w g h = granted grants a (text "reports") w h
  entered-Grants grants a bag_reports w g h = granted grants a (text "reports") w h
  entered-Grants grants a list_bans w g h = granted grants a (text "bans") w h
  entered-Grants grants a put_bans w g h = granted grants a (text "bans") w h
  entered-Grants grants a show_ban w g h = granted grants a (text "bans") w h

  -- A request that reaches a handler of the bans, of the reports or of the metrics, with the tokens
  -- that are written into the configuration as its comment says, has an authorization that is not
  -- empty, whose token hashes to that of a token of the configuration; and what that one lists gives
  -- the bans, the reports or the metrics, as the handler needs, or it has no list.
  pub serve_request-Grants :
      (grants : List Grant) (is_debug is_limited : Bool) (req : RoutedRequest) (endpoint : Endpoint)
      (headers : List (Bytes × Bytes))
      → All IsWritable grants
      → is_guarded endpoint ≡ true
      → serve_request matches md5 (configured_tokens (grants_text grants)) is_debug is_limited req
        ≡ reached endpoint headers
      → (req.authorization ≢ [])
        × ((t : TokenPermissions) × Grants grants (md5 (bare_token req.authorization)) t
            × MayEnter endpoint t)
  serve_request-Grants grants is_debug is_limited req endpoint headers writable guarded e =
      entered-Grants grants req.authorization endpoint writable guarded
        (serve_request-HasNeeded matches md5 (configured_tokens (grants_text grants)) is_debug
          is_limited req endpoint headers e).0
