-- ===== src/Repositories/Sql.antt =====
-- pkg/repositories/files/repository.go: the statements, over the tables that they read and write.
-- Texts are taken to be valid UTF-8; the history that triggers of the database keep is left out.
pub mod Bans
pub mod Pages
pub mod History
use mytonstorage_gateway.Common.{
  Bool, List, Option, [], all, any, drop, false, if◌then◌else◌, leb, ltz, map, negsuc, none, not,
  pos, some, take, true, ℕ, ℤ, ◌&&◌, ◌++◌, ◌+◌, ◌||◌, ◌∷◌,
}
use mytonstorage_gateway.Dict.{delete, insert, lookup}
use mytonstorage_gateway.Models.{GoError, Result, err, ok, plain_error}
use mytonstorage_gateway.Repositories.{DbBanStatus, DbReport, Repository, has_ban}
use mytonstorage_gateway.Text.{Bytes, bytes_eq, contains_byte, text}

-- `files.blacklist` without its key, and `files.reports`
pub record BlacklistRow : Type 0 where
  pub admin : Bytes
  pub reason : Bytes
  pub comment : Bytes
  pub created_at : ℤ

pub record ReportRow : Type 0 where
  pub bag_id : Bytes
  pub reason : Bytes
  pub sender : Bytes
  pub comment : Bytes
  pub created_at : ℤ

-- The tables, the blacklist by bag ID, with the time at which each statement that writes runs.
pub record Tables : Type 0 where
  pub blacklist : List (Bytes × BlacklistRow)
  pub reports : List ReportRow
  pub clock : ℕ → ℤ
  pub statements : ℕ

-- The statements of the repository.
pub data Statement : Type 0 where
  exists_ban select_ban select_bans select_reports select_bag_reports : Statement
  insert_report change_bans : Statement

-- `ORDER BY created_at DESC`; the order of rows of one time, which SQL leaves open, is not used by
-- any theorem.
module _ {A : Type 0} (time : A → ℤ) where
  unfoldable pub insert_newest : A → List A → List A
  insert_newest a [] = a ∷ []
  insert_newest a (b ∷ bs) =
      let rest = insert_newest a bs in if ltz (time a) (time b) then b ∷ rest else a ∷ (b ∷ bs)

  unfoldable pub newest_first : List A → List A
  newest_first [] = []
  newest_first (a ∷ as') = insert_newest a (newest_first as')

-- `LIMIT` and `OFFSET`: a negative number is an error.
unfoldable pub page_of : {A : Type 0} → ℤ → ℤ → List A → Result (List A)
page_of (pos limit) (pos offset) rows = ok (take limit (drop offset rows))
page_of (negsuc limit) offset rows = err (plain_error (text "LIMIT must not be negative"))
page_of (pos limit) (negsuc offset) rows = err (plain_error (text "OFFSET must not be negative"))

-- The characters of a text in UTF-8.
unfoldable pub char_length : Bytes → ℕ
char_length [] = 0
char_length (c ∷ s) = let rest = char_length s in if leb 128 c && leb c 191 then rest else rest + 1

-- A value of `character varying(64)`: a longer one is refused. PostgreSQL cuts a longer one whose
-- excess is only spaces; no bag ID gets there with one, since the services check the length first.
unfoldable pub fits : Bytes → Bool
fits s = leb (char_length s) 64

-- No text of the database holds a NUL byte.
abbrev pub is_text : Bytes → Bool
is_text s = not (contains_byte 0 s)

abbrev pub ban_of_row : Bytes × BlacklistRow → DbBanStatus
ban_of_row (b, row) = record {
  bag_id = b;
  admin = row.admin;
  reason = row.reason;
  comment = row.comment;
  status = true;
  created_at = some row.created_at;
}

abbrev pub report_of_row : ReportRow → DbReport
report_of_row row = record {
  bag_id = row.bag_id;
  reason = row.reason;
  sender = row.sender;
  comment = row.comment;
  created_at = some row.created_at;
}

abbrev pub is_there : {A : Type 0} → Option A → Bool
is_there none = false
is_there (some a) = true

-- The row that a ban leaves: an existing one keeps its time.
abbrev pub row_after : ℤ → Option BlacklistRow → DbBanStatus → BlacklistRow
row_after now none s = record {
  admin = s.admin;
  reason = s.reason;
  comment = s.comment;
  created_at = now;
}
row_after now (some old) s = record old { admin = s.admin; reason = s.reason; comment = s.comment }

-- `DELETE ... WHERE bagid IN (SELECT bagid FROM cte WHERE NOT is_banned)`
unfoldable pub delete_unbanned :
    List DbBanStatus → List (Bytes × BlacklistRow) → List (Bytes × BlacklistRow)
delete_unbanned [] rows = rows
delete_unbanned (s ∷ statuses) rows =
    let rest = delete_unbanned statuses rows in if s.status then rest else delete s.bag_id rest

-- `INSERT ... WHERE c.is_banned ON CONFLICT (bagid) DO UPDATE`
unfoldable pub upsert_banned :
    ℤ → List DbBanStatus → List (Bytes × BlacklistRow) → List (Bytes × BlacklistRow)
upsert_banned now [] rows = rows
upsert_banned now (s ∷ statuses) rows =
    let rest = upsert_banned now statuses rows in
    if s.status then insert s.bag_id (row_after now (lookup s.bag_id rest) s) rest else rest

-- A bag that is banned twice in one statement: `ON CONFLICT` refuses a row that it has written.
unfoldable pub bans_twice : List DbBanStatus → Bool
bans_twice [] = false
bans_twice (s ∷ statuses) =
    (s.status && any (λ t. t.status && bytes_eq t.bag_id s.bag_id) statuses) || bans_twice statuses

-- The texts of a status are those of a JSON document, and the columns of a ban hold them.
unfoldable pub is_storable : DbBanStatus → Bool
is_storable s =
    is_text s.bag_id
    && (is_text s.admin && (is_text s.reason && is_text s.comment))
    && (not s.status || (fits s.bag_id && fits s.admin))

abbrev pub database_error : GoError
database_error = plain_error (text "the database refuses the statement")

abbrev pub read_rows : {A B : Type 0} → (A → B) → Result (List A) → Result (List B)
read_rows f (ok rows) = ok (map f rows)
read_rows f (err e) = err e

-- `WHERE bagid = $1`
unfoldable pub reports_of_bag : Bytes → List ReportRow → List DbReport
reports_of_bag b [] = []
reports_of_bag b (row ∷ rows) =
    let rest = reports_of_bag b rows in
    if bytes_eq row.bag_id b then report_of_row row ∷ rest else rest

abbrev pub new_report_row : DbReport → ℤ → ReportRow
new_report_row report now = record {
  bag_id = report.bag_id;
  reason = report.reason;
  sender = report.sender;
  comment = report.comment;
  created_at = now;
}

-- `fault` is the error with which a statement fails for another reason, such as a lost connection.
module _ (fault : Statement → Tables → Option GoError) where
  abbrev pub unless_fault : {A : Type 0} → Statement → Tables → Result A → Result A
  unless_fault q t result = elim (fault q t) [ some e ↦ err e | none ↦ result ]

  unfoldable pub select_has_ban : Bytes → Tables → Result Bool
  select_has_ban b t = unless_fault exists_ban t (ok (is_there (lookup b t.blacklist)))

  unfoldable pub select_get_ban : Bytes → Tables → Result (Option DbBanStatus)
  select_get_ban b t =
      unless_fault select_ban t (elim (lookup b t.blacklist) [
        | none ↦ ok none
        | some row ↦ ok (some (ban_of_row (b, row)))
      ])

  unfoldable pub select_all_bans : ℤ → ℤ → Tables → Result (List DbBanStatus)
  select_all_bans limit offset t = unless_fault select_bans t (
      read_rows ban_of_row
        (page_of limit offset (newest_first (λ (b, row). row.created_at) t.blacklist)))

  unfoldable pub select_all_reports : ℤ → ℤ → Tables → Result (List DbReport)
  select_all_reports limit offset t = unless_fault select_reports t (
      read_rows report_of_row
        (page_of limit offset (newest_first (λ row. row.created_at) t.reports)))

  unfoldable pub select_reports_by_bag_id : Bytes → Tables → Result (List DbReport)
  select_reports_by_bag_id b t = unless_fault select_bag_reports t (ok (reports_of_bag b t.reports))

  unfoldable pub insert_into_reports : DbReport → Tables → Option GoError × Tables
  insert_into_reports report t = elim (fault insert_report t) [
    | some e ↦ (some e, t)
    | none ↦
        if fits report.bag_id
          && (is_text report.bag_id
              && (is_text report.reason && (is_text report.sender && is_text report.comment)))
        then (
          none,
          record t {
            reports = t.reports ++ new_report_row report (t.clock t.statements) ∷ [];
            statements = t.statements + 1;
          },
        )
        else (some database_error, t)
  ]

  -- The statement changes all rows or none.
  unfoldable pub change_blacklist : List DbBanStatus → Tables → Option GoError × Tables
  change_blacklist statuses t = elim (fault change_bans t) [
    | some e ↦ (some e, t)
    | none ↦
        if all is_storable statuses && not (bans_twice statuses)
        then (
          none,
          record t {
            blacklist =
                upsert_banned (t.clock t.statements) statuses
                  (delete_unbanned statuses t.blacklist);
            statements = t.statements + 1;
          },
        )
        else (some database_error, t)
  ]

  -- `NewRepository`
  abbrev pub new_repository : Repository
  new_repository = record {
    Db = Tables;
    has_ban = select_has_ban;
    get_ban = select_get_ban;
    get_all_bans = select_all_bans;
    get_reports = select_all_reports;
    get_reports_by_bag_id = select_reports_by_bag_id;
    add_report = insert_into_reports;
    update_ban_status = change_blacklist;
  }
