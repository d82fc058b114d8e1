-- ===== src/Models.antt =====
-- pkg/models/apperror.go and the errors that the layers hand to one another. An error of Go is a
-- value of one data type; `wrap` is `fmt.Errorf("...: %w", err)`.
use mytonstorage_gateway.Common.{
  Bool, Option, [], false, if◌then◌else◌, none, some, true, ℕ, ◌++◌, ◌==◌, ◌∷◌,
}
use mytonstorage_gateway.Text.{Bytes, text}
use mytonstorage_gateway.Text.Decimal.{decimal}

pub record AppError : Type 0 where
  pub code : ℕ
  pub message : Bytes

abbrev pub timeout_code : ℕ
timeout_code = 408

abbrev pub not_found_error_code : ℕ
not_found_error_code = 404

abbrev pub too_large_code : ℕ
too_large_code = 413

abbrev pub internal_server_error_code : ℕ
internal_server_error_code = 500

abbrev pub bad_request_error_code : ℕ
bad_request_error_code = 400

abbrev pub not_acceptable_error_code : ℕ
not_acceptable_error_code = 406

-- The map `defaultMessages`.
unfoldable pub default_message : ℕ → Option Bytes
default_message c =
    if c == internal_server_error_code
    then some (text "internal server error")
    else if c == bad_request_error_code
    then some (text "bad request")
    else if c == not_found_error_code
    then some (text "not found")
    else if c == timeout_code
    then some (text "request timeout")
    else none

unfoldable pub new_app_error : ℕ → Bytes → AppError
unfolding default_message
new_app_error c [] = elim (default_message c) [
  | some m ↦ record { code = c; message = m }
  | none ↦ record { code = c; message = text "error" }
]
new_app_error c (b ∷ m) = record { code = c; message = b ∷ m }

pub data GoError : Type 0 where
  app : AppError → GoError
  fiber : ℕ → Bytes → GoError
  err_timeout : GoError
  err_not_found : GoError
  err_deadline : GoError
  plain_error : Bytes → GoError
  wrap : Bytes → GoError → GoError

-- A result with an error; the value beside an error is dropped.
pub data Result {ℓ} (A : Type ℓ) : Type ℓ where
  ok : A → Result A
  err : GoError → Result A

-- `errors.Is(err, ErrTimeout)`
abbrev pub is_timeout : GoError → Bool
is_timeout err_timeout = true
is_timeout (wrap m e) = is_timeout e
is_timeout (app a) = false
is_timeout (fiber c m) = false
is_timeout err_not_found = false
is_timeout err_deadline = false
is_timeout (plain_error m) = false

-- `errors.Is(err, ErrNotFound)`
abbrev pub is_not_found : GoError → Bool
is_not_found err_not_found = true
is_not_found (wrap m e) = is_not_found e
is_not_found (app a) = false
is_not_found (fiber c m) = false
is_not_found err_timeout = false
is_not_found err_deadline = false
is_not_found (plain_error m) = false

-- `errors.As(err, &appErr)`
abbrev pub as_app_error : GoError → Option AppError
as_app_error (app a) = some a
as_app_error (wrap m e) = as_app_error e
as_app_error (fiber c m) = none
as_app_error err_timeout = none
as_app_error err_not_found = none
as_app_error err_deadline = none
as_app_error (plain_error m) = none

-- `errors.Is(err, context.DeadlineExceeded)`
abbrev pub is_deadline : GoError → Bool
is_deadline err_deadline = true
is_deadline (wrap m e) = is_deadline e
is_deadline (app a) = false
is_deadline (fiber c m) = false
is_deadline err_timeout = false
is_deadline err_not_found = false
is_deadline (plain_error m) = false

-- `Error()` of each kind of error.
unfoldable pub error_text : GoError → Bytes
error_text (app e) = text "code=" ++ decimal e.code ++ text ", message=" ++ e.message
error_text (fiber c m) = m
error_text err_timeout = text "timeout"
error_text err_not_found = text "not found"
error_text err_deadline = text "context deadline exceeded"
error_text (plain_error m) = m
error_text (wrap m e) = m ++ error_text e
