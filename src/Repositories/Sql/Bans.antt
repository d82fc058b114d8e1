-- ===== src/Repositories/Sql/Bans.antt =====
-- The blacklist of repository.go as a set of bag IDs.
use mytonstorage_gateway.Common.{
  Bool, List, Option, [], any, arith, false, if◌then◌else◌, none, not, refl, some, true, ℤ, ◌&&◌,
  ◌||◌, ◌∷◌, ◌≡◌,
}
use mytonstorage_gateway.Dict.{IsMap, lookup, lookup-delete, lookup-insert}
use mytonstorage_gateway.Models.{GoError, ok}
use mytonstorage_gateway.Repositories.{DbBanStatus}
use mytonstorage_gateway.Repositories.Coherence.{IsSql, status_entries, updated}
use mytonstorage_gateway.Repositories.Sql.{
  BlacklistRow, Statement, Tables, change_blacklist, delete_unbanned, is_there, new_repository,
  row_after, select_has_ban, upsert_banned,
}
use mytonstorage_gateway.Text.{Bytes, bytes_eq}
use mytonstorage_gateway.Text.Laws.{bytes_eq_iff}

-- A status of that kind for the bag is in the list.
abbrev lists : Bool → Bytes → List DbBanStatus → Bool
lists kind b statuses =
    any (λ s. bytes_eq s.bag_id b && (if kind then s.status else not s.status)) statuses

delete_unbanned-there :
    (statuses : List DbBanStatus) (rows : List (Bytes × BlacklistRow)) (b : Bytes)
    → is_there (lookup b (delete_unbanned statuses rows))
      ≡ (is_there (lookup b rows) && not (lists false b statuses))
unfolding delete_unbanned
delete_unbanned-there [] rows b = ground arith
delete_unbanned-there (s ∷ statuses) rows b = ground (
  arith,
  delete_unbanned-there statuses rows b,
  lookup-delete s.bag_id b (delete_unbanned statuses rows),
)

upsert_banned-there :
    (now : ℤ) (statuses : List DbBanStatus) (rows : List (Bytes × BlacklistRow)) (b : Bytes)
    → is_there (lookup b (upsert_banned now statuses rows))
      ≡ (is_there (lookup b rows) || lists true b statuses)
unfolding upsert_banned
upsert_banned-there now [] rows b = ground arith
upsert_banned-there now (s ∷ statuses) rows b = ground (
  arith,
  upsert_banned-there now statuses rows b,
  lookup-insert s.bag_id b (row_after now (lookup s.bag_id (upsert_banned now statuses rows)) s)
      (upsert_banned now statuses rows),
)

unlisted :
    (statuses : List DbBanStatus) (b : Bytes)
    → lookup b (status_entries statuses) ≡ none
    → (lists true b statuses ≡ false) × (lists false b statuses ≡ false)
unfolding lookup
unlisted [] b h = (refl, refl)
unlisted (s ∷ statuses) b h = ground (arith, unlisted statuses b)

updated-lists :
    (statuses : List DbBanStatus) (b : Bytes) (old : Bool)
    → IsMap (status_entries statuses)
    → updated (lookup b (status_entries statuses)) old
      ≡ ((old && not (lists false b statuses)) || lists true b statuses)
unfolding lookup
updated-lists [] b old h = ground arith
updated-lists (s ∷ statuses) b old (new, once) = ground (
  arith,
  updated-lists statuses b old once,
  unlisted statuses s.bag_id new,
  bytes_eq_iff s.bag_id b,
)

-- The blacklist says that the bag is banned.
abbrev pub is_banned : Bytes → Tables → Bool
is_banned b t = is_there (lookup b t.blacklist)

module _ (fault : Statement → Tables → Option GoError) where
  pub select_has_ban-banned :
      (b : Bytes) (t : Tables) (answer : Bool)
      → select_has_ban fault b t ≡ ok answer
      → answer ≡ is_banned b t
  unfolding select_has_ban
  select_has_ban-banned b t answer e = ground arith

  change_blacklist_done :
      (l : List DbBanStatus) (t : Tables)
      → (change_blacklist fault l t).0 ≡ none
      → (change_blacklist fault l t).1.blacklist
        ≡ upsert_banned (t.clock t.statements) l (delete_unbanned l t.blacklist)
  unfolding change_blacklist
  change_blacklist_done l t e = ground arith

  pub change_blacklist_failed :
      (l : List DbBanStatus) (t : Tables) (e : GoError)
      → (change_blacklist fault l t).0 ≡ some e
      → (change_blacklist fault l t).1 ≡ t
  unfolding change_blacklist
  change_blacklist_failed l t e failed = ground arith

  pub is_banned-update :
      (l : List DbBanStatus) (t : Tables) (b : Bytes)
      → IsMap (status_entries l)
      → (change_blacklist fault l t).0 ≡ none
      → is_banned b (change_blacklist fault l t).1
        ≡ updated (lookup b (status_entries l)) (is_banned b t)
  is_banned-update l t b once done =
      rw
        (
          change_blacklist_done l t done,
          upsert_banned-there,
          delete_unbanned-there,
          updated-lists l b (is_banned b t) once,
        )
        refl

  -- The statements do what the cache in front of them relies on.
  abbrev pub new_repository-IsSql : IsSql (new_repository fault)
  new_repository-IsSql = record {
    banned = is_banned;
    has_ban-banned = select_has_ban-banned;
    banned-update = is_banned-update;
    banned-failed = λ l t b e failed. rw (change_blacklist_failed l t e failed) refl;
  }
