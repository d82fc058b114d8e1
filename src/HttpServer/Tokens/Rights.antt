-- ===== src/HttpServer/Tokens/Rights.antt =====
-- Which requests `requirePermission` of pkg/httpServer/middlewares.go admits.
use mytonstorage_gateway.Common.{
  Bool, List, Option, [], any, arith, false, none, refl, some, true, ◌||◌, ◌↔◌, ◌∷◌, ◌≡◌, ◌≢◌,
}
use mytonstorage_gateway.Dict.{lookup, lookup-insert}
use mytonstorage_gateway.HttpServer.Tokens.{
  TokenPermissions, add_token, add_tokens, bare_token, grant, grants, has_permission,
  new_access_tokens, no_permission, permission_name, permissions_of, require_permission,
}
use mytonstorage_gateway.Text.{Bytes, Unicode, bytes_eq, split, text, trim_space}
use mytonstorage_gateway.Text.Laws.{bytes_eq_iff}

-- Who may ban may read and add reports.
abbrev pub IsClosed : TokenPermissions → Type 0
IsClosed t = t.bans ≡ true → t.reports ≡ true

module _ ⦃u : Unicode⦄ where
  -- The names that give a permission, among those of a list.
  abbrev pub names : List Bytes → Bytes → Bool
  names perms name = any (λ perm. bytes_eq (permission_name perm) name) perms

  grant-IsClosed : (perm : Bytes) (t : TokenPermissions) → IsClosed t → IsClosed (grant perm t)
  unfolding grant
  grant-IsClosed perm t h = ground arith

  grants-IsClosed :
      (perms : List Bytes) (t : TokenPermissions) → IsClosed t → IsClosed (grants perms t)
  unfolding grants
  grants-IsClosed [] t h = h
  grants-IsClosed (perm ∷ perms) t h =
      grants-IsClosed perms (grant perm t) (grant-IsClosed perm t h)

  -- The four names are not one another.
  name_cases :
      (name : Bytes)
      → ((bytes_eq name (text "bans") ≡ true)
          → (bytes_eq name (text "metrics") ≡ false) × (bytes_eq name (text "all") ≡ false))
        × ((bytes_eq name (text "reports") ≡ true)
            → (bytes_eq name (text "metrics") ≡ false) × (bytes_eq name (text "all") ≡ false))
        × ((bytes_eq name (text "metrics") ≡ true) → (bytes_eq name (text "all") ≡ false))
  name_cases name = (
    (λ e. rw ((bytes_eq_iff name (text "bans")).0 e) (refl, refl)),
    (λ e. rw ((bytes_eq_iff name (text "reports")).0 e) (refl, refl)),
    (λ e. rw ((bytes_eq_iff name (text "metrics")).0 e) refl),
  )

  grant_exact :
      (perm : Bytes) (t : TokenPermissions)
      → ((grant perm t).bans ≡ (
          t.bans
          || (bytes_eq (permission_name perm) (text "bans")
              || bytes_eq (permission_name perm) (text "all"))))
        × ((grant perm t).reports ≡ (
            t.reports
            || (bytes_eq (permission_name perm) (text "bans")
                || (bytes_eq (permission_name perm) (text "reports")
                    || bytes_eq (permission_name perm) (text "all")))))
        × ((grant perm t).metrics ≡ (
            t.metrics
            || (bytes_eq (permission_name perm) (text "metrics")
                || bytes_eq (permission_name perm) (text "all"))))
  unfolding grant
  grant_exact perm t = ground (arith, name_cases (permission_name perm))

  -- Each permission of a list is given by its own name, by "all", and reports by "bans" too; any
  -- other name gives nothing, and the order of the names does not matter.
  pub grants_exact :
      (perms : List Bytes) (t : TokenPermissions)
      → ((grants perms t).bans
          ≡ (t.bans || (names perms (text "bans") || names perms (text "all"))))
        × ((grants perms t).reports ≡ (
            t.reports
            || (names perms (text "bans")
                || (names perms (text "reports") || names perms (text "all")))))
        × ((grants perms t).metrics
            ≡ (t.metrics || (names perms (text "metrics") || names perms (text "all"))))
  unfolding grants
  grants_exact [] t = ground arith
  grants_exact (perm ∷ perms) t =
      ground (arith, grants_exact perms (grant perm t), grant_exact perm t)

  permissions_of-IsClosed : (parts : List Bytes) → IsClosed (permissions_of parts)
  unfolding permissions_of
  permissions_of-IsClosed [] = λ e. e
  permissions_of-IsClosed (perms ∷ parts) =
      grants-IsClosed (split b',' perms) no_permission (λ e. cc)

  -- Every entry of the map.
  abbrev Entries : List (Bytes × TokenPermissions) → Type 0
  Entries tokens =
      (hash : Bytes) (t : TokenPermissions) → lookup hash tokens ≡ some t → (hash ≢ []) × IsClosed t

  add_token-Entries :
      (parts : List Bytes) (tokens : List (Bytes × TokenPermissions))
      → Entries tokens
      → Entries (add_token parts tokens)
  unfolding add_token
  add_token-Entries [] tokens h hash t e = h hash t e
  add_token-Entries (p ∷ parts) tokens h hash t e = ground (
    arith,
    lookup-insert (trim_space p) hash (permissions_of parts) tokens,
    h hash t,
    bytes_eq_iff (trim_space p) hash,
    bytes_eq_iff (trim_space p) [],
    permissions_of-IsClosed parts,
  )

  add_tokens-Entries :
      (l : List Bytes) (tokens : List (Bytes × TokenPermissions))
      → Entries tokens
      → Entries (add_tokens l tokens)
  unfolding add_tokens
  add_tokens-Entries [] tokens h = h
  add_tokens-Entries (token ∷ more) tokens h =
      add_tokens-Entries more _ (add_token-Entries (split b':' token) tokens h)

  -- However the tokens are written in the configuration: no entry has an empty hash, and a token
  -- that may ban may also see and add reports.
  pub new_access_tokens-IsClosed :
      (access_tokens : List Bytes) (hash : Bytes) (t : TokenPermissions)
      → lookup hash (new_access_tokens access_tokens) ≡ some t
      → (hash ≢ []) × IsClosed t
  unfolding new_access_tokens
  new_access_tokens-IsClosed access_tokens =
      add_tokens-Entries access_tokens [] (λ hash t e. absurd (unfold lookup in ground arith))

  -- A request passes exactly if it has an authorization whose token, less "bearer ", hashes to an
  -- entry of the map that has the permission.
  pub require_permission_iff :
      (md5 : Bytes → Bytes) (tokens : List (Bytes × TokenPermissions))
      (permission authorization : Bytes)
      → (require_permission md5 tokens permission authorization ≡ none) ↔ (
          (authorization ≢ [])
          × ((t : TokenPermissions) × (lookup (md5 (bare_token authorization)) tokens ≡ some t)
              × (has_permission permission t ≡ true)))
  unfolding require_permission
  require_permission_iff md5 tokens permission authorization =
      ((λ e. (λ nil. ground arith, admitted _ refl e)), (λ (given, (t, found, has)). ground arith))
    where
      admitted :
          (hit : Option TokenPermissions)
          → lookup (md5 (bare_token authorization)) tokens ≡ hit
          → require_permission md5 tokens permission authorization ≡ none
          → (t : TokenPermissions) × (lookup (md5 (bare_token authorization)) tokens ≡ some t)
            × (has_permission permission t ≡ true)
      admitted none found e = absurd (ground arith)
      admitted (some t) found e = (t, found, ground arith)

  -- A request that is let through to the bans is let through to the reports.
  pub require_permission-bans :
      (md5 : Bytes → Bytes) (access_tokens : List Bytes) (authorization : Bytes)
      → require_permission md5 (new_access_tokens access_tokens) (text "bans") authorization ≡ none
      → require_permission md5 (new_access_tokens access_tokens) (text "reports") authorization
        ≡ none
  require_permission-bans md5 access_tokens authorization e =
      let tokens = new_access_tokens access_tokens in
      let (given, (t, found, has)) =
        (require_permission_iff md5 tokens (text "bans") authorization).0 e in
      (require_permission_iff md5 tokens (text "reports") authorization).1 (
        given,
        (
          t,
          found,
          unfold has_permission in
              (new_access_tokens-IsClosed access_tokens _ t found).1 (unfold has_permission in has),
        ),
      )
