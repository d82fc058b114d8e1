-- ===== src/HttpServer/Logged.antt =====
-- What pkg/httpServer logs of a request: `loggerMiddleware` of middlewares.go and `limitReached` of
-- methods.go; and `health`, which answers a request without the rest of the program.
use mytonstorage_gateway.Common.{
  Bool, List, Option, [], ap, false, if◌then◌else◌, length, none, refl, some, true, ℕ, ◌||◌, ◌∙◌,
  ◌∷◌, ◌≡◌,
}
use mytonstorage_gateway.Dict.{delete, insert, lookup, lookup-delete}
use mytonstorage_gateway.HttpServer.Metrics.{Handled}
use mytonstorage_gateway.HttpServer.Response.{Sent, answer_body, application_json}
use mytonstorage_gateway.Models.{GoError, fiber}
use mytonstorage_gateway.Text.{Bytes, bytes_eq, text}

-- The line that `loggerMiddleware` logs.
pub record RequestLine : Type 0 where
  pub status_code : ℕ
  pub method : Bytes
  pub url : Bytes
  pub headers : List (Bytes × List Bytes)
  pub body_length : ℕ

-- What is logged of a request.
pub record LoggedRequest : Type 0 where
  pub method : Bytes
  pub url : Bytes
  pub headers : List (Bytes × List Bytes)
  pub body : Bytes

-- The headers of the line.
unfoldable pub logged_headers : List (Bytes × List Bytes) → List (Bytes × List Bytes)
logged_headers headers =
    let kept : List (Bytes × List Bytes) =
      delete (text "Cookie") (delete (text "Authorization") headers) in
    elim (lookup (text "Cookie") kept) [
      | none ↦ kept
      | some cookies ↦ insert (text "Cookie") (text "REDACTED" ∷ []) kept
    ]

-- `loggerMiddleware` around `next`: what `next` leaves, and the line.
unfoldable pub logger_middleware :
    {W : Type 0} → LoggedRequest → (W → Handled × W) → W → (Handled × W) × RequestLine
logger_middleware req next w =
    let headers = logged_headers req.headers in
    let (handled, w') = next w in
    (
      (handled, w'),
      record {
        status_code = handled.status;
        method = req.method;
        url = req.url;
        headers = headers;
        body_length = length req.body;
      },
    )

-- `limitReached`: its error and the headers that it logs.
unfoldable pub limit_reached : LoggedRequest → GoError × List (Bytes × List Bytes)
limit_reached req = (fiber 429 (text "too many requests, please try again later"), req.headers)

-- The answers of `health`.
pub data HealthBody : Type 0 where
  status_ok null_json : HealthBody
  error_json : GoError → HealthBody

-- `c.JSON(...)`, of the status or of an error, which is nil or not
abbrev pub json : HealthBody → Sent HealthBody → Sent HealthBody
json body r = record r { content_type = application_json; body = answer_body body }

abbrev pub json_of_error : Option GoError → HealthBody
json_of_error none = null_json
json_of_error (some e) = error_json e

unfoldable pub ok_handler : Sent HealthBody → Option GoError × Sent HealthBody
ok_handler r = (none, json status_ok r)

unfoldable pub health_handler : Sent HealthBody → Sent HealthBody
health_handler r = let (e, r') = ok_handler r in json (json_of_error e) r'

kept_headers-cookie :
    (headers : List (Bytes × List Bytes))
    → lookup (text "Cookie") (delete (text "Cookie") (delete (text "Authorization") headers)) ≡ none
kept_headers-cookie headers =
    rw (lookup-delete (text "Cookie") (text "Cookie") (delete (text "Authorization") headers)) refl

logged_headers_lem :
    (headers : List (Bytes × List Bytes))
    → logged_headers headers ≡ delete (text "Cookie") (delete (text "Authorization") headers)
unfolding logged_headers
logged_headers_lem headers = rw (logged_headers, kept_headers-cookie headers) refl

either_absent :
    {A : Type 0}
    → (a b : Bool) (hit : Option A)
    → (if b then none else if a then none else hit) ≡ (if a || b then none else hit)
either_absent true true hit = refl
either_absent true false hit = refl
either_absent false true hit = refl
either_absent false false hit = refl

-- What `loggerMiddleware` logs: no authorization and no cookie, in the spelling of the framework,
-- and every other header of the request as it is; and the request goes on to `next` and ends as
-- `next` leaves it, with the status of the line.
pub logger_middleware-IsTransparent :
    {W : Type 0}
    → (req : LoggedRequest) (next : W → Handled × W) (w : W) (name : Bytes)
    → ((logger_middleware req next w).0 ≡ next w)
      × ((logger_middleware req next w).1.status_code ≡ (next w).0.status)
      × (lookup name (logger_middleware req next w).1.headers ≡ (
          if bytes_eq (text "Authorization") name || bytes_eq (text "Cookie") name
          then none
          else lookup name req.headers))
unfolding logger_middleware
logger_middleware-IsTransparent req next w name = (
  refl,
  refl,
  ap (lookup name) (logged_headers_lem req.headers)
      ∙ lookup-delete (text "Cookie") name (delete (text "Authorization") req.headers)
      ∙ ap (λ (hit : Option (List Bytes)). if bytes_eq (text "Cookie") name then none else hit)
          (lookup-delete (text "Authorization") name req.headers)
      ∙ either_absent (bytes_eq (text "Authorization") name) (bytes_eq (text "Cookie") name)
          (lookup name req.headers),
)
