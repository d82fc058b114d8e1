-- ===== src/HttpServer/Tokens/Format.antt =====
-- The text of SYSTEM_ACCESS_TOKENS as cmd/config.go describes it, printed and read back by `run` of
-- cmd/main.go and `New` of pkg/httpServer/handler.go.
use mathlib.Core.List.{reverse, reverse-reverse}
use mytonstorage_gateway.Common.{
  All, All-append, All-reverse, Bool, List, Option, [], any, arith, false, if◌then◌else◌, map, none,
  refl, some, true, ℕ, ◌++◌, ◌||◌, ◌∙◌, ◌∷◌, ◌≡◌, ◌≢◌, ◌≤◌,
}
use mytonstorage_gateway.Dict.{insert, lookup, lookup-insert}
use mytonstorage_gateway.HttpServer.Tokens.{
  TokenPermissions, add_token, add_tokens, configured_tokens, every_permission, grant, grants,
  new_access_tokens, no_permission, permissions_of,
}
use mytonstorage_gateway.Text.{
  Bytes, Unicode, bytes_eq, is_space, join, lower_byte, lower_from, split, text, to_lower,
  trim_right_rev, trim_space,
}
use mytonstorage_gateway.Text.Laws.{bytes_eq_iff}
use mytonstorage_gateway.Text.Split.{
  Lacks, contains_byte-Lacks, join-Lacks, split-append, split-join, split_of_Lacks,
}

-- The permissions that the comment on the configuration names.
pub data Permission : Type 0 where
  may_ban may_report may_measure may_all : Permission

-- A token as it is configured: its hash, and a list of permissions if one is given.
pub data Grant : Type 0 where
  unlisted : Bytes → Grant
  listed : Bytes → List Permission → Grant

abbrev pub permission_text : Permission → Bytes
permission_text may_ban = text "bans"
permission_text may_report = text "reports"
permission_text may_measure = text "metrics"
permission_text may_all = text "all"

abbrev pub list_text : List Permission → Bytes
list_text perms = join (b',' ∷ []) (map permission_text perms)

unfoldable pub grant_text : Grant → Bytes
grant_text (unlisted hash) = hash
grant_text (listed hash perms) = hash ++ b':' ∷ list_text perms

-- The whole text of the configuration.
unfoldable pub grants_text : List Grant → Bytes
grants_text grants = join (b';' ∷ []) (map grant_text grants)

abbrev pub hash_of : Grant → Bytes
hash_of (unlisted hash) = hash
hash_of (listed hash perms) = hash

abbrev pub gives_bans : Permission → Bool
gives_bans may_ban = true
gives_bans may_report = false
gives_bans may_measure = false
gives_bans may_all = true

abbrev pub gives_reports : Permission → Bool
gives_reports may_ban = true
gives_reports may_report = true
gives_reports may_measure = false
gives_reports may_all = true

abbrev pub gives_metrics : Permission → Bool
gives_metrics may_ban = false
gives_metrics may_report = false
gives_metrics may_measure = true
gives_metrics may_all = true

-- What a configured token may do.
abbrev pub allowed : Grant → TokenPermissions
allowed (unlisted hash) = every_permission
allowed (listed hash perms) = record {
  bans = any gives_bans perms;
  reports = any gives_reports perms;
  metrics = any gives_metrics perms;
}

-- What the tokens with the hash may do: the last one of them decides.
unfoldable pub wanted : Bytes → List Grant → Option TokenPermissions
wanted hash [] = none
wanted hash (g ∷ grants) = elim (wanted hash grants) [
  | some t ↦ some t
  | none ↦ if bytes_eq (hash_of g) hash then some (allowed g) else none
]

-- A visible ASCII character other than the separators of tokens and of their lists.
abbrev pub IsHashByte : ℕ → Type 0
IsHashByte b = (33 ≤ b) × (b ≤ 126) × (b ≢ b':') × (b ≢ b';')

-- The hash of a token can be written in the configuration.
abbrev pub IsWritable : Grant → Type 0
IsWritable g = (hash_of g ≢ []) × All IsHashByte (hash_of g)

hash_byte-Lacks : (s : Bytes) → All IsHashByte s → Lacks b':' s × Lacks b';' s
hash_byte-Lacks [] h = (tt, tt)
hash_byte-Lacks (c ∷ s) ((_, _, p, q), h) = let (ps, qs) = hash_byte-Lacks s h in ((p, ps), (q, qs))

-- The names of the permissions hold no separator.
permission-Lacks : (sep : ℕ) (p : Permission) → sep ≤ 59 → Lacks sep (permission_text p)
permission-Lacks sep may_ban h = contains_byte-Lacks sep (text "bans") (ground arith)
permission-Lacks sep may_report h = contains_byte-Lacks sep (text "reports") (ground arith)
permission-Lacks sep may_measure h = contains_byte-Lacks sep (text "metrics") (ground arith)
permission-Lacks sep may_all h = contains_byte-Lacks sep (text "all") (ground arith)

permissions-Lacks :
    (sep : ℕ) (perms : List Permission) → sep ≤ 59 → All (Lacks sep) (map permission_text perms)
permissions-Lacks sep [] h = tt
permissions-Lacks sep (p ∷ perms) h = (permission-Lacks sep p h, permissions-Lacks sep perms h)

grant_text-Lacks : (g : Grant) → IsWritable g → Lacks b';' (grant_text g)
unfolding grant_text
grant_text-Lacks (unlisted hash) (_, h) = (hash_byte-Lacks hash h).1
grant_text-Lacks (listed hash perms) (_, h) =
    All-append (λ c. c ≢ b';') hash (b':' ∷ list_text perms) (hash_byte-Lacks hash h).1
      (
        (λ e. omega arith),
        join-Lacks b';' b',' (map permission_text perms) (λ e. omega arith)
            (permissions-Lacks b';' perms (omega arith)),
      )

grants_text-Lacks :
    (grants : List Grant) → All IsWritable grants → All (Lacks b';') (map grant_text grants)
grants_text-Lacks [] h = tt
grants_text-Lacks (g ∷ grants) (h, hs) = (grant_text-Lacks g h, grants_text-Lacks grants hs)

module _ ⦃u : Unicode⦄ where
  trim_right_rev_hash : (s : Bytes) → All IsHashByte s → trim_right_rev s ≡ reverse s
  unfolding trim_right_rev is_space
  trim_right_rev_hash [] h = refl
  trim_right_rev_hash (c ∷ s) (h, hs) = ground arith

  trim_space_hash : (s : Bytes) → All IsHashByte s → trim_space s ≡ s
  unfolding trim_space is_space
  trim_space_hash [] h = refl
  trim_space_hash (c ∷ s) (h, hs) = ground (
    arith,
    trim_right_rev_hash (reverse (c ∷ s)) (All-reverse IsHashByte (c ∷ s) (h, hs)),
    reverse-reverse (c ∷ s),
  )

  -- One name of a list does what the comment says.
  abbrev more : Permission → TokenPermissions → TokenPermissions
  more p t = record {
    bans = t.bans || gives_bans p;
    reports = t.reports || gives_reports p;
    metrics = t.metrics || gives_metrics p;
  }

  grant_permission :
      (p : Permission) (t : TokenPermissions) → grant (permission_text p) t ≡ more p t
  unfolding grant to_lower lower_from lower_byte trim_space trim_right_rev is_space
  grant_permission may_ban t = ground arith
  grant_permission may_report t = ground arith
  grant_permission may_measure t = ground arith
  grant_permission may_all t = ground arith

  -- A list of names gives what the names give.
  grants_permissions :
      (perms : List Permission) (t : TokenPermissions)
      → grants (map permission_text perms) t ≡ record {
        bans = t.bans || any gives_bans perms;
        reports = t.reports || any gives_reports perms;
        metrics = t.metrics || any gives_metrics perms;
      }
  unfolding grants
  grants_permissions [] t = ground arith
  grants_permissions (p ∷ perms) t =
      ground (arith, grant_permission p t, grants_permissions perms (more p t))

  grants-list_text :
      (perms : List Permission)
      → grants (split b',' (list_text perms)) no_permission ≡ allowed (listed [] perms)
  grants-list_text [] = unfold join split grants grant trim_space to_lower lower_from in refl
  grants-list_text (p ∷ perms) =
      rw
        (split-join b',' (permission_text p) (map permission_text perms)
          (permissions-Lacks b',' (p ∷ perms) (omega arith)))
        (grants_permissions (p ∷ perms) no_permission)

  split-grant_text :
      (g : Grant) (tokens : List (Bytes × TokenPermissions))
      → IsWritable g
      → add_token (split b':' (grant_text g)) tokens ≡ insert (hash_of g) (allowed g) tokens
  unfolding grant_text add_token permissions_of
  split-grant_text (unlisted hash) tokens (ne, h) = ground (
    arith,
    split_of_Lacks b':' hash (hash_byte-Lacks hash h).0,
    trim_space_hash hash h,
    bytes_eq_iff hash [],
  )
  split-grant_text (listed hash perms) tokens (ne, h) = ground (
    arith,
    split-append b':' hash (list_text perms),
    split_of_Lacks b':' hash (hash_byte-Lacks hash h).0,
    split_of_Lacks b':' (list_text perms) (
        join-Lacks b':' b',' (map permission_text perms) (λ e. omega arith)
          (permissions-Lacks b':' perms (omega arith))),
    trim_space_hash hash h,
    bytes_eq_iff hash [],
    grants-list_text perms,
  )

  -- The entry at a hash: that of the configured tokens, or the one there was.
  abbrev or_old : Option TokenPermissions → Option TokenPermissions → Option TokenPermissions
  or_old none old = old
  or_old (some t) old = some t

  or_old-none : (hash : Bytes) (hit : Option TokenPermissions) → or_old hit (lookup hash []) ≡ hit
  unfolding lookup
  or_old-none hash none = refl
  or_old-none hash (some t) = refl

  lookup-add_tokens :
      (k : Bytes) (grants : List Grant) (tokens : List (Bytes × TokenPermissions))
      → All IsWritable grants
      → lookup k (add_tokens (map grant_text grants) tokens)
        ≡ or_old (wanted k grants) (lookup k tokens)
  unfolding add_tokens wanted
  lookup-add_tokens k [] tokens h = refl
  lookup-add_tokens k (g ∷ grants) tokens (h, hs) = ground (
    arith,
    split-grant_text g tokens h,
    lookup-add_tokens k grants (add_token (split b':' (grant_text g)) tokens) hs,
    lookup-insert (hash_of g) k (allowed g) tokens,
  )

  -- Tokens that are written into the configuration as its comment says, with hashes of visible
  -- characters without separators, are read back exactly: a hash is known if and only if a token was
  -- written with it, with the permissions that its last token lists, "bans" with those of the
  -- reports, and with every permission if that token has no list. An empty text admits no token.
  pub configured_tokens-grants_text :
      (grants : List Grant) (hash : Bytes)
      → All IsWritable grants
      → lookup hash (configured_tokens (grants_text grants)) ≡ wanted hash grants
  unfolding configured_tokens new_access_tokens grants_text
  configured_tokens-grants_text [] hash h =
      unfold join split add_tokens add_token trim_space wanted lookup in refl
  configured_tokens-grants_text (g ∷ grants) hash h =
      rw (split-join b';' (grant_text g) (map grant_text grants) (grants_text-Lacks (g ∷ grants) h))
        (lookup-add_tokens hash (g ∷ grants) [] h ∙ or_old-none hash (wanted hash (g ∷ grants)))
