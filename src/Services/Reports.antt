-- ===== src/Services/Reports.antt =====
-- pkg/services/reports/service.go, over a repository, with the types of pkg/models/api/v1/types.go.
pub mod Opaque
use mytonstorage_gateway.Common.{
  Bool, List, Option, [], if◌then◌else◌, length, map, negsuc, none, pos, some, ℕ, ℤ, ◌%◌, ◌-◌, ◌==◌,
  ◌^◌, ◌∷◌,
}
use mytonstorage_gateway.Models.{
  GoError, Result, app, bad_request_error_code, err, internal_server_error_code, new_app_error, ok,
}
use mytonstorage_gateway.Repositories.{DbBanStatus, DbReport, Repository}
use mytonstorage_gateway.Text.{Bytes, Unicode, text, to_lower}

pub record Report : Type 0 where
  pub bag_id : Bytes
  pub reason : Bytes
  pub sender : Bytes
  pub comment : Bytes
  pub created_at : ℕ

pub record BanInfo : Type 0 where
  pub bag_id : Bytes
  pub admin : Bytes
  pub reason : Bytes
  pub comment : Bytes

pub record BanStatus : Type 0 where
  pub bag_id : Bytes
  pub admin : Bytes
  pub reason : Bytes
  pub comment : Bytes
  pub status : Bool

-- `uint64(t.Unix())`, or 0 for a time that is nil
unfoldable pub created_at_of : Option ℤ → ℕ
created_at_of none = 0
created_at_of (some (pos n)) = n % 2 ^ 64
created_at_of (some (negsuc n)) = 2 ^ 64 - 1 - n % 2 ^ 64

unfoldable pub report_of : DbReport → Report
report_of r = record {
  bag_id = r.bag_id;
  reason = r.reason;
  sender = r.sender;
  comment = r.comment;
  created_at = created_at_of r.created_at;
}

unfoldable pub ban_info_of : DbBanStatus → BanInfo
ban_info_of b = record {
  bag_id = b.bag_id;
  admin = b.admin;
  reason = b.reason;
  comment = b.comment;
}

abbrev pub optional_ban_info : Option DbBanStatus → Option BanInfo
optional_ban_info none = none
optional_ban_info (some b) = some (ban_info_of b)

-- The row that `AddReport` hands to the repository.
unfoldable pub db_report_of : Report → DbReport
db_report_of r = record {
  bag_id = r.bag_id;
  reason = r.reason;
  sender = r.sender;
  comment = r.comment;
  created_at = none;
}

-- An error of the repository ends in the same error for every operation; what was read is converted.
abbrev pub internal_error : GoError
internal_error = app (new_app_error internal_server_error_code [])

abbrev pub bag_id_error : GoError
bag_id_error = app (new_app_error bad_request_error_code (text "invalid bag ID"))

abbrev pub read : {A B : Type 0} → (A → B) → Result A → Result B
read f (ok a) = ok (f a)
read f (err e) = err internal_error

-- What `AddReport` and `UpdateBanStatus` return for the error of the repository.
abbrev pub written : Option GoError → Option GoError
written none = none
written (some e) = some internal_error

module _ ⦃u : Unicode⦄ where
  unfoldable pub db_status_of : BanStatus → DbBanStatus
  db_status_of s = record {
    bag_id = to_lower s.bag_id;
    admin = s.admin;
    reason = s.reason;
    comment = s.comment;
    status = s.status;
    created_at = none;
  }

  -- The loop of `UpdateBanStatus`, or nothing where it returns an error.
  unfoldable pub db_statuses : List BanStatus → Option (List DbBanStatus)
  db_statuses [] = some []
  db_statuses (s ∷ statuses) =
      if length s.bag_id == 64
      then elim (db_statuses statuses) [ none ↦ none | some rows ↦ some (db_status_of s ∷ rows) ]
      else none

  module _ (r : Repository) where
    unfoldable pub get_reports : ℤ → ℤ → r.Db → Result (List Report)
    get_reports limit offset db = read (map report_of) (r.get_reports limit offset db)

    unfoldable pub get_reports_by_bag_id : Bytes → r.Db → Result (List Report)
    get_reports_by_bag_id bag_id db = read (map report_of) (r.get_reports_by_bag_id bag_id db)

    unfoldable pub get_ban : Bytes → r.Db → Result (Option BanInfo)
    get_ban bag_id db = read optional_ban_info (r.get_ban bag_id db)

    unfoldable pub get_all_bans : ℤ → ℤ → r.Db → Result (List BanInfo)
    get_all_bans limit offset db = read (map ban_info_of) (r.get_all_bans limit offset db)

    unfoldable pub add_report : Report → r.Db → Option GoError × r.Db
    add_report report db =
        if length report.bag_id == 64
        then (let (failed, db') = r.add_report (db_report_of report) db in (written failed, db'))
        else (some bag_id_error, db)

    unfoldable pub update_ban_status : List BanStatus → r.Db → Option GoError × r.Db
    update_ban_status [] db = (none, db)
    update_ban_status (s ∷ statuses) db = elim (db_statuses (s ∷ statuses)) [
      | none ↦ (some bag_id_error, db)
      | some rows ↦ let (failed, db') = r.update_ban_status rows db in (written failed, db')
    ]
