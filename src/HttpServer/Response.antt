-- ===== src/HttpServer/Response.antt =====
-- Responses, `errorHandler` and `mapPathInfoError` of pkg/httpServer/helpers.go.
use mytonstorage_gateway.Common.{List, [], if◌then◌else◌, ltb, none, some, ℕ, ◌&&◌, ◌++◌, ◌==◌}
use mytonstorage_gateway.Models.{
  AppError, GoError, app, as_app_error, err_deadline, err_not_found, err_timeout, error_text, fiber,
  not_found_error_code, plain_error, wrap,
}
use mytonstorage_gateway.Services.Files.{FolderInfo}
use mytonstorage_gateway.Text.{Bytes, text}
use mytonstorage_gateway.Text.Decimal.{decimal}

-- What a handler has put into the response of the framework.
pub record Response (B : Type 0) : Type 0 where
  pub status : ℕ
  pub content_type : Bytes
  pub headers : List (Bytes × Bytes)
  pub body : B

-- The bodies that the handlers send: nothing, `{"error": ...}`, or what a handler answers with.
pub data Body (A : Type 0) : Type 0 where
  no_body : Body A
  error_body : Bytes → Body A
  answer_body : A → Body A

abbrev pub Sent : Type 0 → Type 0
Sent A = Response (Body A)

-- The response at the start of a request.
abbrev pub fresh : {A : Type 0} → Sent A
fresh = record { status = 200; content_type = []; headers = []; body = no_body }

abbrev pub application_json : Bytes
application_json = text "application/json"

-- The status and the message that `errorHandler` sends: the kind of the error itself is looked at,
-- not what it wraps.
unfoldable pub error_reply : GoError → ℕ × Bytes
error_reply (app e) = (e.code, e.message)
error_reply (fiber c m) = (c, m)
error_reply err_timeout = (500, error_text err_timeout)
error_reply err_not_found = (500, error_text err_not_found)
error_reply err_deadline = (500, error_text err_deadline)
error_reply (plain_error m) = (500, error_text (plain_error m))
error_reply (wrap m e) = (500, error_text (wrap m e))

unfoldable pub error_handler : {A : Type 0} → GoError → Sent A → Sent A
error_handler e r =
    let (c, m) = error_reply e in
    record r { status = c; content_type = application_json; body = error_body m }

-- The larger of the two numbers of peers.
unfoldable pub peers_of : FolderInfo → ℕ
peers_of info = elim info.stream_file [
  | none ↦ info.peers_count
  | some s ↦ if ltb s.peers_count info.peers_count then info.peers_count else s.peers_count
]

unfoldable pub map_app_error : AppError → FolderInfo → GoError
map_app_error e info =
    if e.code == not_found_error_code && ltb 0 (peers_of info)
    then fiber 408
        (text "found " ++ decimal (peers_of info) ++ text " peers, but request timed out")
    else fiber e.code e.message

unfoldable pub map_path_info_error : GoError → FolderInfo → GoError
map_path_info_error e info = elim (as_app_error e) [
  | some a ↦ map_app_error a info
  | none ↦ fiber 500 []
]
