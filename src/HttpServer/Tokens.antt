-- ===== src/HttpServer/Tokens.antt =====
-- The access tokens: `New` of pkg/httpServer/handler.go and `requirePermission` of
-- pkg/httpServer/middlewares.go.
pub mod Rights
pub mod Format
use mytonstorage_gateway.Common.{
  Bool, List, Option, [], drop, false, if◌then◌else◌, none, some, true, ◌∷◌,
}
use mytonstorage_gateway.Dict.{insert, lookup}
use mytonstorage_gateway.Models.{GoError, fiber}
use mytonstorage_gateway.Text.{
  Bytes, Unicode, bytes_eq, has_prefix, split, text, to_lower, trim_space,
}

pub record TokenPermissions : Type 0 where
  pub bans : Bool
  pub reports : Bool
  pub metrics : Bool

abbrev pub every_permission : TokenPermissions
every_permission = record { bans = true; reports = true; metrics = true }

abbrev pub no_permission : TokenPermissions
no_permission = record { bans = false; reports = false; metrics = false }

module _ ⦃u : Unicode⦄ where
  -- The name that a permission of the list is compared by.
  abbrev pub permission_name : Bytes → Bytes
  permission_name perm = trim_space (to_lower perm)

  -- One round of the loop over the permissions.
  unfoldable pub grant : Bytes → TokenPermissions → TokenPermissions
  grant perm t =
      if bytes_eq (permission_name perm) (text "bans")
      then record t { bans = true; reports = true }
      else if bytes_eq (permission_name perm) (text "reports")
      then record t { reports = true }
      else if bytes_eq (permission_name perm) (text "metrics")
      then record t { metrics = true }
      else if bytes_eq (permission_name perm) (text "all")
      then every_permission
      else t

  unfoldable pub grants : List Bytes → TokenPermissions → TokenPermissions
  grants [] t = t
  grants (perm ∷ perms) t = grants perms (grant perm t)

  -- The permissions of a token, from the parts after the first colon.
  unfoldable pub permissions_of : List Bytes → TokenPermissions
  permissions_of [] = every_permission
  permissions_of (perms ∷ parts) = grants (split b',' perms) no_permission

  unfoldable pub add_token :
      List Bytes → List (Bytes × TokenPermissions) → List (Bytes × TokenPermissions)
  add_token [] tokens = tokens
  add_token (hash ∷ parts) tokens =
      if bytes_eq (trim_space hash) []
      then tokens
      else insert (trim_space hash) (permissions_of parts) tokens

  -- The loop of `New`.
  unfoldable pub add_tokens :
      List Bytes → List (Bytes × TokenPermissions) → List (Bytes × TokenPermissions)
  add_tokens [] tokens = tokens
  add_tokens (token ∷ more) tokens = add_tokens more (add_token (split b':' token) tokens)

  unfoldable pub new_access_tokens : List Bytes → List (Bytes × TokenPermissions)
  new_access_tokens access_tokens = add_tokens access_tokens []

  -- The tokens that `run` of cmd/main.go hands to `New`, from the text of the configuration.
  unfoldable pub configured_tokens : Bytes → List (Bytes × TokenPermissions)
  configured_tokens system_access_tokens = new_access_tokens (split b';' system_access_tokens)

  -- The token without its "bearer ", in any case of letters.
  unfoldable pub bare_token : Bytes → Bytes
  bare_token token = if has_prefix (to_lower token) (text "bearer ") then drop 7 token else token

  unfoldable pub has_permission : Bytes → TokenPermissions → Bool
  has_permission permission t =
      if bytes_eq permission (text "bans")
      then t.bans
      else if bytes_eq permission (text "reports")
      then t.reports
      else if bytes_eq permission (text "metrics")
      then t.metrics
      else false

  -- `requirePermission`: the error with which it ends the request, or nothing where `Next` is called.
  -- `md5` is the digest in hexadecimal digits.
  unfoldable pub require_permission :
      (Bytes → Bytes) → List (Bytes × TokenPermissions) → Bytes → Bytes → Option GoError
  require_permission md5 tokens permission authorization =
      if bytes_eq authorization []
      then some (fiber 401 (text "unauthorized"))
      else elim (lookup (md5 (bare_token authorization)) tokens) [
        | none ↦ some (fiber 403 (text "forbidden"))
        | some t ↦ if has_permission permission t then none else some (fiber 403 (text "forbidden"))
      ]
