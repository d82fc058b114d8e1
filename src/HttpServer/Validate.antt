-- ===== src/HttpServer/Validate.antt =====
-- `validateBagID` and `sanitizePath` of pkg/httpServer/helpers.go.
pub mod BagId
pub mod Sanitize
use mytonstorage_gateway.Common.{
  Bool, Option, [], any, false, if◌then◌else◌, leb, length, ltb, none, some, suc, true, zero, ℕ,
  ◌&&◌, ◌==◌, ◌||◌, ◌∷◌,
}
use mytonstorage_gateway.FilePath.{clean, dot, dot_dot, slash}
use mytonstorage_gateway.Models.{Result, app, bad_request_error_code, err, new_app_error, ok}
use mytonstorage_gateway.Text.{
  Bytes, Unicode, bytes_eq, contains_byte, split, text, to_lower, trim_space,
}

-- `(c >= '0' && c <= '9') || (c >= 'a' && c <= 'f')`
unfoldable pub is_lower_hex : ℕ → Bool
is_lower_hex c = (leb b'0' c && leb c b'9') || (leb b'a' c && leb c b'f')

-- The loop of `validateBagID`, with the rounds left; `none` is the panic of an index out of range.
unfoldable pub hex_loop : ℕ → Bytes → Option Bool
hex_loop zero s = some true
hex_loop (suc n) [] = none
hex_loop (suc n) (c ∷ s) = let rest = hex_loop n s in if is_lower_hex c then rest else some false

abbrev pub bag_id_length : ℕ
bag_id_length = 64

abbrev pub max_path_length : ℕ
max_path_length = 4096

module _ ⦃u : Unicode⦄ where
  unfoldable pub validate_bag_id : Bytes → Option Bool
  unfolding hex_loop is_lower_hex
  validate_bag_id bagid =
      if length bagid == bag_id_length then hex_loop bag_id_length (to_lower bagid) else some false

  -- `sanitizePath` after its first lines, for a trimmed path
  unfoldable pub sanitize_trimmed : Bytes → Result Bytes
  sanitize_trimmed p =
      if bytes_eq p [] || (bytes_eq p dot || bytes_eq p (slash ∷ []))
      then ok dot
      else (let cleaned = clean p in
          if bytes_eq cleaned dot
          then ok dot
          else if ltb max_path_length (length cleaned)
          then err (app (new_app_error bad_request_error_code (text "path too long")))
          else if any (λ seg. bytes_eq seg dot_dot) (split slash cleaned)
          then err (app (new_app_error bad_request_error_code (text "invalid segment in path")))
          else if contains_byte 0 cleaned
          then err (app (new_app_error bad_request_error_code (text "invalid path")))
          else ok cleaned)

  unfoldable pub sanitize_path : Bytes → Result Bytes
  unfolding sanitize_trimmed
  sanitize_path p = sanitize_trimmed (trim_space p)
