-- ===== src/HttpServer/Admin/Written.antt =====
-- What the handlers for reports and bans of pkg/httpServer/methods.go may write to the database.
use mytonstorage_gateway.Common.{
  All, Bool-cases, List, Option, Option-cases, [], ap, arith, inl, inr, map, none, refl, some, true,
  ◌∙◌, ◌∷◌, ◌≡◌, ◌⊎◌,
}
use mytonstorage_gateway.HttpServer.Admin.{
  AdminAnswer, add_parsed, add_report_handler, begins_with, lowered, respond_written,
  update_ban_status_handler,
}
use mytonstorage_gateway.HttpServer.Response.{Sent}
use mytonstorage_gateway.HttpServer.Validate.BagId.{IsBagId, validate_bag_id-total}
use mytonstorage_gateway.Models.{GoError}
use mytonstorage_gateway.Repositories.{DbBanStatus, DbReport, Repository}
use mytonstorage_gateway.Services.Reports.{
  BanStatus, Report, add_report, db_report_of, db_status_of, db_statuses, update_ban_status,
}
use mytonstorage_gateway.Services.Reports.Opaque.{
  IsBagIdLength, db_statuses-lengths, update_ban_status-written,
}
use mytonstorage_gateway.Text.{Bytes, Unicode, to_lower}

module _ ⦃u : Unicode⦄ (r : Repository) where
  -- One row was handed to the repository: that of the report of the body, with its bag ID, which is
  -- well formed, in lower case, its reason, its sender and its comment, and without a time.
  pub record IsReported (parse : Bytes → Option Report) (body : Bytes) (db db' : r.Db)
      : Type 0 where
    pub report : Report
    pub parsed : parse body ≡ some report
    pub id : IsBagId (to_lower report.bag_id)
    pub row : DbReport
    pub same_bag : row.bag_id ≡ to_lower report.bag_id
    pub same_reason : row.reason ≡ report.reason
    pub same_sender : row.sender ≡ report.sender
    pub same_comment : row.comment ≡ report.comment
    pub no_time : row.created_at ≡ none
    pub handed : db' ≡ (r.add_report row db).1

  respond_written-db :
      (result : Option GoError × r.Db) (response : Sent AdminAnswer) (db' : r.Db)
      → respond_written result ≡ (response, db')
      → db' ≡ result.1
  respond_written-db (none, db) response db' e = ground arith
  respond_written-db (some x, db) response db' e = ground arith

  add_report-db :
      (report : Report) (db : r.Db)
      → ((add_report r report db).1 ≡ db)
        ⊎ ((add_report r report db).1 ≡ (r.add_report (db_report_of report) db).1)
  unfolding add_report
  add_report-db report db = ground arith

  -- A post of a report leaves the database as it is, or it hands on one row: that of the report in the
  -- body, with a well-formed bag ID in lower case and the reason, the sender and the comment of the
  -- body, and without the time of the body.
  pub add_report_handler-IsReported :
      (parse : Bytes → Option Report) (body : Bytes) (db db' : r.Db) (response : Sent AdminAnswer)
      → add_report_handler r parse body db ≡ some (response, db')
      → (db' ≡ db) ⊎ IsReported parse body db db'
  add_report_handler-IsReported parse body db db' response e =
      elim (Bool-cases (begins_with b'{' body)) [
        | inl right ↦ go (parse body) refl right
        | inr wrong ↦ inl (unfold add_report_handler in ground arith)
      ]
    where
      checked :
          (report : Report)
          → parse body ≡ some report
          → add_parsed r (lowered r report) db ≡ some (response, db')
          → (db' ≡ db) ⊎ IsReported parse body db db'
      checked report q p =
          let (valid, was, iff) = validate_bag_id-total (to_lower report.bag_id) in
          elim (Bool-cases valid) [
            | inl is_valid ↦
                let written : db' ≡ (add_report r (lowered r report) db).1 =
                  respond_written-db (add_report r (lowered r report) db) response db'
                    (unfold add_parsed in ground arith) in
                elim (add_report-db (lowered r report) db) [
                  | inl same ↦ inl (written ∙ same)
                  | inr handed ↦ inr (record {
                    report = report;
                    parsed = q;
                    id = iff.0 is_valid;
                    row = db_report_of (lowered r report);
                    same_bag = unfold db_report_of in refl;
                    same_reason = unfold db_report_of in refl;
                    same_sender = unfold db_report_of in refl;
                    same_comment = unfold db_report_of in refl;
                    no_time = unfold db_report_of in refl;
                    handed = written ∙ handed;
                  })
                ]
            | inr not_valid ↦ inl (unfold add_parsed in ground arith)
          ]

      go :
          (parsed : Option Report)
          → parse body ≡ parsed
          → begins_with b'{' body ≡ true
          → (db' ≡ db) ⊎ IsReported parse body db db'
      go none q right = inl (unfold add_report_handler in ground arith)
      go (some report) q right = checked report q (unfold add_report_handler in ground arith)

  -- The row is that of the status, with the bag ID in lower case and without a time.
  abbrev pub IsRow : BanStatus → DbBanStatus → Type 0
  IsRow s row =
      (row.bag_id ≡ to_lower s.bag_id)
      × (row.admin ≡ s.admin)
      × (row.reason ≡ s.reason)
      × (row.comment ≡ s.comment)
      × (row.status ≡ s.status)
      × (row.created_at ≡ none)

  -- One row for each status, in their order.
  pub data AreRows : List BanStatus → List DbBanStatus → Type 0 where
    no_rows : AreRows [] []
    more_rows :
        (s : BanStatus) (row : DbBanStatus) (statuses : List BanStatus) (rows : List DbBanStatus)
        → IsRow s row
        → AreRows statuses rows
        → AreRows (s ∷ statuses) (row ∷ rows)

  map-AreRows : (statuses : List BanStatus) → AreRows statuses (map db_status_of statuses)
  unfolding db_status_of
  map-AreRows [] = no_rows
  map-AreRows (s ∷ statuses) =
      more_rows s _ statuses _ (refl, refl, refl, refl, refl, refl) (map-AreRows statuses)

  -- The rows of the statuses of the body, all with bag IDs of length 64, were handed to the
  -- repository.
  pub record IsUpdated (parse : Bytes → Option (List BanStatus)) (body : Bytes) (db db' : r.Db)
      : Type 0 where
    pub statuses : List BanStatus
    pub parsed : parse body ≡ some statuses
    pub lengths : All IsBagIdLength statuses
    pub rows : List DbBanStatus
    pub are_rows : AreRows statuses rows
    pub handed : db' ≡ (r.update_ban_status rows db).1

  -- An update of the bans leaves the database as it is, or the bag IDs of the body all have length 64
  -- and it hands on one row for each status of the body, in their order: with the bag ID in lower
  -- case, the administrator, the reason, the comment and the status of the body, and without a time.
  pub update_ban_status_handler-IsUpdated :
      (parse : Bytes → Option (List BanStatus)) (body : Bytes) (db : r.Db)
      → ((update_ban_status_handler r parse body db).1 ≡ db)
        ⊎ IsUpdated parse body db (update_ban_status_handler r parse body db).1
  unfolding update_ban_status_handler update_ban_status
  update_ban_status_handler-IsUpdated parse body db = elim (Bool-cases (begins_with b'[' body)) [
    | inl right ↦ go (parse body) refl right
    | inr wrong ↦ inl (unfold update_ban_status_handler in ground arith)
  ]
    where
      result : List BanStatus → r.Db
      result statuses = (update_ban_status r statuses db).1

      ran :
          (statuses : List BanStatus)
          → parse body ≡ some statuses
          → begins_with b'[' body ≡ true
          → (update_ban_status_handler r parse body db).1 ≡ result statuses
      ran statuses q right =
          rw (right, q, update_ban_status_handler)
            (respond_written-db (update_ban_status r statuses db) _ _ refl)

      go :
          (parsed : Option (List BanStatus))
          → parse body ≡ parsed
          → begins_with b'[' body ≡ true
          → ((update_ban_status_handler r parse body db).1 ≡ db)
            ⊎ IsUpdated parse body db (update_ban_status_handler r parse body db).1
      go none q right = inl (unfold update_ban_status_handler in ground arith)
      go (some []) q right = inl (ran [] q right ∙ unfold update_ban_status in refl)
      go (some (s ∷ statuses)) q right = elim (Option-cases (db_statuses (s ∷ statuses))) [
        | inl bad ↦ inl (
            ran (s ∷ statuses) q right
            ∙ unfold update_ban_status in rw (bad, update_ban_status) refl)
        | inr (rows, good) ↦ inr (record {
          statuses = s ∷ statuses;
          parsed = q;
          lengths = db_statuses-lengths (s ∷ statuses) rows good;
          rows = map db_status_of (s ∷ statuses);
          are_rows = map-AreRows (s ∷ statuses);
          handed =
              ran (s ∷ statuses) q right
              ∙ ap (λ p. p.1)
                  (update_ban_status-written r s statuses db
                    (db_statuses-lengths (s ∷ statuses) rows good));
        })
      ]
