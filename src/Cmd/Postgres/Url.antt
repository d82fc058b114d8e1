-- ===== src/Cmd/Postgres/Url.antt =====
-- What the connection string says when it is read back as a URL.
use mathlib.Core.List.{append_assoc}
use mytonstorage_gateway.Common.{
  All, All-append, List, Option, [], arith, map, none, refl, some, ℕ, ◌++◌, ◌<◌, ◌∙◌, ◌∷◌, ◌≡◌, ◌≢◌,
}
use mytonstorage_gateway.Cmd.Config.{Postgress}
use mytonstorage_gateway.Cmd.Postgres.{pg_url}
use mytonstorage_gateway.FilePath.{slash}
use mytonstorage_gateway.Text.{Bytes, cut_prefix, split, text}
use mytonstorage_gateway.Text.Escape.{
  is_unreserved, plus_for_space, query_escape, query_escape-Lacks, user_unescape,
  user_unescape-query_escape,
}
use mytonstorage_gateway.Text.Laws.{cut_prefix-append}
use mytonstorage_gateway.Text.Split.{Lacks, split-append, split_of_Lacks}

-- The user, the password and the rest of an authority that has them.
pub record UserInfo : Type 0 where
  pub user : Bytes
  pub password : Bytes
  pub address : Bytes

abbrev pub user_and : Option Bytes → Option Bytes → Bytes → Option UserInfo
user_and none p address = none
user_and (some u) none address = none
user_and (some u) (some p) address = some (record { user = u; password = p; address = address })

-- The parts of the user information around its only colon.
abbrev pub read_credentials : List Bytes → Bytes → Option UserInfo
read_credentials [] address = none
read_credentials (u ∷ []) address = none
read_credentials (u ∷ p ∷ []) address = user_and (user_unescape u) (user_unescape p) address
read_credentials (u ∷ p ∷ q ∷ l) address = none

-- The parts of the authority around its only at sign.
abbrev pub read_authority : List Bytes → Option UserInfo
read_authority [] = none
read_authority (info ∷ []) = none
read_authority (info ∷ address ∷ []) = read_credentials (split b':' info) address
read_authority (info ∷ address ∷ b ∷ l) = none

-- The authority stands before the first slash.
abbrev pub read_rest : List Bytes → Option UserInfo
read_rest [] = none
read_rest (authority ∷ l) = read_authority (split b'@' authority)

abbrev pub read_after_scheme : Option Bytes → Option UserInfo
read_after_scheme none = none
read_after_scheme (some s) = read_rest (split b'/' s)

unfoldable pub read_url : Bytes → Option UserInfo
read_url url = read_after_scheme (cut_prefix url (text "postgres://"))

abbrev pub AreBytes : Bytes → Type 0
AreBytes s = All (λ c. c < 256) s

abbrev pub address_of : Postgress → Bytes
address_of db = db.host ++ b':' ∷ db.port

abbrev credentials_of : Postgress → Bytes
credentials_of db = query_escape db.user ++ b':' ∷ query_escape db.password

-- The host and the port hold none of the two bytes that end an authority or its user information.
abbrev pub IsAddress : Postgress → Type 0
IsAddress db = (Lacks b'/' db.host × Lacks b'@' db.host) × (Lacks b'/' db.port × Lacks b'@' db.port)

pg_url_parts :
    (db : Postgress)
    → pg_url db
      ≡ text "postgres://" ++ ((credentials_of db ++ b'@' ∷ address_of db) ++ b'/' ∷ db.name)
unfolding pg_url
pg_url_parts db = simp append_assoc

-- Of a text that was escaped, the separators of a URL are missing.
escaped-Lacks :
    (s : Bytes)
    → AreBytes s
    → Lacks b'/' (query_escape s) × Lacks b'@' (query_escape s) × Lacks b':' (query_escape s)
unfolding is_unreserved
escaped-Lacks s h = (
  query_escape-Lacks b'/' s refl (λ e. omega (arith, e)) (λ e. omega (arith, e)) h,
  query_escape-Lacks b'@' s refl (λ e. omega (arith, e)) (λ e. omega (arith, e)) h,
  query_escape-Lacks b':' s refl (λ e. omega (arith, e)) (λ e. omega (arith, e)) h,
)

-- Two texts without a byte, around another one, are without it.
around-Lacks : (b c : ℕ) (s t : Bytes) → c ≢ b → Lacks b s → Lacks b t → Lacks b (s ++ c ∷ t)
around-Lacks b c s t ne hs ht = All-append (λ d. d ≢ b) s (c ∷ t) hs (ne, ht)

credentials-Lacks :
    (db : Postgress)
    → AreBytes db.user
    → AreBytes db.password
    → Lacks b'/' (credentials_of db) × Lacks b'@' (credentials_of db)
credentials-Lacks db u p =
    let (slash, at, _) = escaped-Lacks db.user u in
    let (slash', at', _) = escaped-Lacks db.password p in
    let around = λ (b : ℕ). around-Lacks b b':' (query_escape db.user) (query_escape db.password) in
    (around b'/' (λ e. omega (arith, e)) slash slash', around b'@' (λ e. omega (arith, e)) at at')

address-Lacks :
    (db : Postgress) → IsAddress db → Lacks b'/' (address_of db) × Lacks b'@' (address_of db)
address-Lacks db ((slash, at), (slash', at')) = (
  around-Lacks b'/' b':' db.host db.port (λ e. omega (arith, e)) slash slash',
  around-Lacks b'@' b':' db.host db.port (λ e. omega (arith, e)) at at',
)

read_credentials_of :
    (db : Postgress)
    → AreBytes db.user
    → AreBytes db.password
    → read_credentials (split b':' (credentials_of db)) (address_of db)
      ≡ some (record {
        user = map plus_for_space db.user;
        password = map plus_for_space db.password;
        address = address_of db;
      })
read_credentials_of db u p =
    rw
      (
        split-append b':' (query_escape db.user) (query_escape db.password),
        split_of_Lacks b':' (query_escape db.user) (escaped-Lacks db.user u).2,
        split_of_Lacks b':' (query_escape db.password) (escaped-Lacks db.password p).2,
        user_unescape-query_escape db.user u,
        user_unescape-query_escape db.password p,
      )
      refl

read_authority_of :
    (db : Postgress)
    → AreBytes db.user
    → AreBytes db.password
    → IsAddress db
    → read_authority (split b'@' (credentials_of db ++ b'@' ∷ address_of db))
      ≡ read_credentials (split b':' (credentials_of db)) (address_of db)
read_authority_of db u p h =
    rw
      (
        split-append b'@' (credentials_of db) (address_of db),
        split_of_Lacks b'@' (credentials_of db) (credentials-Lacks db u p).1,
        split_of_Lacks b'@' (address_of db) (address-Lacks db h).1,
      )
      refl

-- Whatever the user name and the password are, the connection string has one user name, password and
-- address: those of the configuration, but with a plus sign for each space of the user name and of
-- the password, since the escaping is that of a query. The host and the port hold no slash and no at
-- sign.
pub read_url-pg_url :
    (db : Postgress)
    → AreBytes db.user
    → AreBytes db.password
    → IsAddress db
    → read_url (pg_url db)
      ≡ some (record {
        user = map plus_for_space db.user;
        password = map plus_for_space db.password;
        address = address_of db;
      })
unfolding read_url
read_url-pg_url db u p h =
    let authority : Bytes = credentials_of db ++ b'@' ∷ address_of db in
    rw
      (
        pg_url_parts db,
        cut_prefix-append (text "postgres://") (authority ++ b'/' ∷ db.name),
        split-append b'/' authority db.name,
        split_of_Lacks b'/' authority (
            around-Lacks b'/' b'@' (credentials_of db) (address_of db) (λ e. omega (arith, e))
              (credentials-Lacks db u p).0 (address-Lacks db h).0),
      )
      (read_authority_of db u p h ∙ read_credentials_of db u p)
