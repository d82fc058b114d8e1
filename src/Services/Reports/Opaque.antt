-- ===== src/Services/Reports/Opaque.antt =====
-- What the service of pkg/services/reports/service.go lets through, in both directions.
use mytonstorage_gateway.Common.{
  All, Bool-cases, List, Option, Option-cases, [], arith, inl, inr, length, map, none, refl, some,
  ℤ, ◌==◌, ◌∷◌, ◌≡◌, ◌⊎◌,
}
use mytonstorage_gateway.Models.{GoError, Result, err, ok}
use mytonstorage_gateway.Repositories.{DbBanStatus, Repository}
use mytonstorage_gateway.Services.Reports.{
  BanStatus, Report, add_report, bag_id_error, db_status_of, db_statuses, get_all_bans, get_ban,
  get_reports, get_reports_by_bag_id, internal_error, read, update_ban_status, written,
}
use mytonstorage_gateway.Text.{Bytes, Unicode}

abbrev pub IsBagIdLength : BanStatus → Type 0
IsBagIdLength s = length s.bag_id ≡ 64

-- An error that says nothing of the database.
abbrev pub IsOpaque : GoError → Type 0
IsOpaque e = (e ≡ internal_error) ⊎ (e ≡ bag_id_error)

read-IsOpaque :
    {A B : Type 0} (f : A → B) (result : Result A) (e : GoError)
    → read f result ≡ err e
    → IsOpaque e
read-IsOpaque f (ok a) e p = cc
read-IsOpaque f (err x) e p = inl (ground arith)

written-IsOpaque : (failed : Option GoError) (e : GoError) → written failed ≡ some e → IsOpaque e
written-IsOpaque none e p = cc
written-IsOpaque (some x) e p = inl (ground arith)

module _ ⦃u : Unicode⦄ where
  db_statuses-All :
      (statuses : List BanStatus)
      → All IsBagIdLength statuses
      → db_statuses statuses ≡ some (map db_status_of statuses)
  unfolding db_statuses
  db_statuses-All [] h = refl
  db_statuses-All (s ∷ statuses) (p, h) = rw (p, db_statuses-All statuses h) refl

  db_statuses-none :
      (statuses : List BanStatus) → ¬ All IsBagIdLength statuses → db_statuses statuses ≡ none
  unfolding db_statuses
  db_statuses-none [] h = absurd (h tt)
  db_statuses-none (s ∷ statuses) h = elim (Bool-cases (length s.bag_id == 64)) [
    | inl e ↦ rw (e, db_statuses-none statuses (λ k. h (ground arith, k))) refl
    | inr e ↦ rw e refl
  ]

  -- Statuses that were converted have bag IDs of that length.
  pub db_statuses-lengths :
      (statuses : List BanStatus) (rows : List DbBanStatus)
      → db_statuses statuses ≡ some rows
      → All IsBagIdLength statuses
  unfolding db_statuses
  db_statuses-lengths [] rows e = tt
  db_statuses-lengths (s ∷ statuses) rows e = elim (Option-cases (db_statuses statuses)) [
    | inl q ↦ absurd (ground arith)
    | inr (rest, q) ↦ (ground arith, db_statuses-lengths statuses rest q)
  ]

  module _ (r : Repository) where
    -- An update with a bag ID of another length than 64 is refused as a whole: the repository is
    -- not called, whatever the other statuses are.
    pub update_ban_status-refused :
        (statuses : List BanStatus) (db : r.Db)
        → ¬ All IsBagIdLength statuses
        → update_ban_status r statuses db ≡ (some bag_id_error, db)
    unfolding update_ban_status
    update_ban_status-refused [] db h = absurd (h tt)
    update_ban_status-refused (s ∷ statuses) db h =
        rw (db_statuses-none (s ∷ statuses) h, update_ban_status) refl

    -- An update of at least one status, all with bag IDs of length 64, hands every status on, in
    -- its order and with the bag ID in lower case, in one call of the repository.
    pub update_ban_status-written :
        (s : BanStatus) (statuses : List BanStatus) (db : r.Db)
        → All IsBagIdLength (s ∷ statuses)
        → update_ban_status r (s ∷ statuses) db ≡ (
          written (r.update_ban_status (map db_status_of (s ∷ statuses)) db).0,
          (r.update_ban_status (map db_status_of (s ∷ statuses)) db).1,
        )
    unfolding update_ban_status db_status_of
    update_ban_status-written s statuses db h =
        rw (db_statuses-All (s ∷ statuses) h, update_ban_status) refl

    -- An operation of the service that fails with the error.
    pub data Fails (db : r.Db) (e : GoError) : Type 0 where
      reports_fail : (limit offset : ℤ) → get_reports r limit offset db ≡ err e → Fails db e
      bag_reports_fail : (bag_id : Bytes) → get_reports_by_bag_id r bag_id db ≡ err e → Fails db e
      ban_fails : (bag_id : Bytes) → get_ban r bag_id db ≡ err e → Fails db e
      bans_fail : (limit offset : ℤ) → get_all_bans r limit offset db ≡ err e → Fails db e
      report_fails : (report : Report) → (add_report r report db).0 ≡ some e → Fails db e
      update_fails :
          (statuses : List BanStatus) → (update_ban_status r statuses db).0 ≡ some e → Fails db e

    -- No error of the database reaches a client: an operation of the service that fails does so with
    -- the bare internal error, or with the one for a bag ID of a wrong length.
    pub service-IsOpaque : (db : r.Db) (e : GoError) → Fails db e → IsOpaque e
    unfolding get_reports get_reports_by_bag_id get_ban get_all_bans add_report update_ban_status
    service-IsOpaque db e (reports_fail limit offset p) =
        read-IsOpaque _ (r.get_reports limit offset db) e p
    service-IsOpaque db e (bag_reports_fail bag_id p) =
        read-IsOpaque _ (r.get_reports_by_bag_id bag_id db) e p
    service-IsOpaque db e (ban_fails bag_id p) = read-IsOpaque _ (r.get_ban bag_id db) e p
    service-IsOpaque db e (bans_fail limit offset p) =
        read-IsOpaque _ (r.get_all_bans limit offset db) e p
    service-IsOpaque db e (report_fails report p) = ground arith
    service-IsOpaque db e (update_fails [] p) = cc
    service-IsOpaque db e (update_fails (s ∷ statuses) p) =
        elim (Option-cases (db_statuses (s ∷ statuses))) [
          | inl bad ↦ inr (ground arith)
          | inr (rows, good) ↦ written-IsOpaque (r.update_ban_status rows db).0 e (ground arith)
        ]
