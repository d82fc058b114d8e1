-- ===== src/Repositories.antt =====
-- pkg/repositories/files: the interface `Repository` as a parameter, and the cache in front of it
-- (cache.go), with the rows of pkg/models/db/types.go.
pub mod Coherence
pub mod Measured
pub mod Sql
use mytonstorage_gateway.Common.{
  Bool, List, Option, [], false, if◌then◌else◌, none, some, true, ℕ, ℤ, ◌++◌, ◌+◌, ◌∷◌,
}
use mytonstorage_gateway.Cache.{SimpleCache, get, new_simple_cache, release, set}
use mytonstorage_gateway.Models.{GoError, Result, err, ok}
use mytonstorage_gateway.Text.{Bytes, Unicode, text, to_lower}

-- `Report` of pkg/models/db; a time is its number of seconds since 1970.
pub record DbReport : Type 0 where
  pub bag_id : Bytes
  pub reason : Bytes
  pub sender : Bytes
  pub comment : Bytes
  pub created_at : Option ℤ

-- `BanStatus` of pkg/models/db
pub record DbBanStatus : Type 0 where
  pub bag_id : Bytes
  pub admin : Bytes
  pub reason : Bytes
  pub comment : Bytes
  pub status : Bool
  pub created_at : Option ℤ

-- `Repository`, over the database that it changes.
pub record Repository : Type 1 where
  pub Db : Type 0
  pub has_ban : Bytes → Db → Result Bool
  pub get_ban : Bytes → Db → Result (Option DbBanStatus)
  pub get_all_bans : ℤ → ℤ → Db → Result (List DbBanStatus)
  pub get_reports : ℤ → ℤ → Db → Result (List DbReport)
  pub get_reports_by_bag_id : Bytes → Db → Result (List DbReport)
  pub add_report : DbReport → Db → Option GoError × Db
  pub update_ban_status : List DbBanStatus → Db → Option GoError × Db

-- `hasBanKey`
abbrev pub has_ban_key : Bytes
has_ban_key = text "hb:"

-- One hour, in milliseconds.
abbrev pub has_ban_ttl : ℕ
has_ban_ttl = 3_600_000

module _ ⦃u : Unicode⦄ where
  abbrev pub ban_key : Bytes → Bytes
  ban_key bag_id = has_ban_key ++ to_lower bag_id

  -- One round of the loop of `UpdateBanStatus`.
  unfoldable pub note_status : Bool → ℕ → Bytes → SimpleCache Bool → SimpleCache Bool
  note_status true now key c = set now key true c
  note_status false now key c = (release now key c).1

  -- The loop of `UpdateBanStatus`; the `n`-th reading of the clock is `now n`.
  unfoldable pub note_statuses :
      (ℕ → ℕ) → ℕ → List DbBanStatus → SimpleCache Bool → SimpleCache Bool
  note_statuses now n [] c = c
  note_statuses now n (s ∷ statuses) c =
      note_statuses now (n + 1) statuses (note_status s.status (now n) (ban_key s.bag_id) c)

  module _ (r : Repository) where
    -- `cacheMiddleware`
    pub record Cached : Type 0 where
      pub cache : SimpleCache Bool
      pub db : r.Db

    -- `NewCache`
    unfoldable pub new_cache : r.Db → Cached
    new_cache db = record { cache = new_simple_cache has_ban_ttl; db = db }

    -- `HasBan` after a miss: what the repository returned, noted if the bag is banned.
    unfoldable pub note_ban : ℕ → Bytes → Result Bool → Cached → Cached
    note_ban t_set key (ok true) s = record s { cache = set t_set key true s.cache }
    note_ban t_set key (ok false) s = s
    note_ban t_set key (err e) s = s

    -- The times are those at which `Get` and `Set` read the clock. The call is one step: in the source
    -- only `Get` and `Set` hold the mutex of the cache, and an update that runs between them is left
    -- out.
    unfoldable pub has_ban : ℕ → ℕ → Bytes → Cached → Result Bool × Cached
    has_ban t_get t_set bag_id s =
        let key = ban_key bag_id in
        let (hit, cache) = get t_get key s.cache in
        let result = r.has_ban bag_id s.db in
        let s' : Cached = record s { cache = cache } in
        elim hit [
          | some b ↦ if b then (ok true, s') else (result, note_ban t_set key result s')
          | none ↦ (result, note_ban t_set key result s')
        ]

    unfoldable pub update_ban_status : (ℕ → ℕ) → List DbBanStatus → Cached → Option GoError × Cached
    update_ban_status now statuses s =
        let (failed, db) = r.update_ban_status statuses s.db in
        elim failed [
          | some e ↦ (some e, record s { db = db })
          | none ↦ (none, record { cache = note_statuses now 0 statuses s.cache; db = db })
        ]

    unfoldable pub add_report : DbReport → Cached → Option GoError × Cached
    add_report report s =
        let (failed, db) = r.add_report report s.db in (failed, record s { db = db })

    unfoldable pub get_ban : Bytes → Cached → Result (Option DbBanStatus)
    get_ban bag_id s = r.get_ban bag_id s.db

    unfoldable pub get_all_bans : ℤ → ℤ → Cached → Result (List DbBanStatus)
    get_all_bans limit offset s = r.get_all_bans limit offset s.db

    unfoldable pub get_reports : ℤ → ℤ → Cached → Result (List DbReport)
    get_reports limit offset s = r.get_reports limit offset s.db

    unfoldable pub get_reports_by_bag_id : Bytes → Cached → Result (List DbReport)
    get_reports_by_bag_id bag_id s = r.get_reports_by_bag_id bag_id s.db
