-- ===== src/HttpServer/Admin.antt =====
-- The handlers for reports and bans of pkg/httpServer/methods.go: getReports, getAllBans,
-- updateBanStatus, getReportsByBagID, getBan and addReport. The parsers of bodies are parameters.
pub mod Written
use mytonstorage_gateway.Common.{
  Bool, List, Option, [], false, if◌then◌else◌, none, some, ℕ, ℤ, ◌==◌, ◌∷◌,
}
use mytonstorage_gateway.HttpServer.Response.{
  Sent, answer_body, application_json, error_handler, fresh,
}
use mytonstorage_gateway.HttpServer.Validate.{validate_bag_id}
use mytonstorage_gateway.Models.{GoError, Result, err, fiber, ok}
use mytonstorage_gateway.Repositories.{Repository}
use mytonstorage_gateway.Services.Reports.{
  BanInfo, BanStatus, Report, add_report, get_all_bans, get_ban, get_reports, get_reports_by_bag_id,
  update_ban_status,
}
use mytonstorage_gateway.Templates.{content_type}
use mytonstorage_gateway.Text.{Bytes, Unicode, text, to_lower}

-- What the handlers answer with: a status alone, or values in JSON.
pub data AdminAnswer : Type 0 where
  status_text : AdminAnswer
  reports_json : List Report → AdminAnswer
  bans_json : List BanInfo → AdminAnswer
  ban_json : Option BanInfo → AdminAnswer

abbrev pub send_json : AdminAnswer → Sent AdminAnswer
send_json a = record fresh { content_type = application_json; body = answer_body a }

-- `SendStatus(200)`
abbrev pub send_ok : Sent AdminAnswer
send_ok = record fresh { body = answer_body status_text }

abbrev pub refuse_with : GoError → Sent AdminAnswer
refuse_with e = error_handler e fresh

abbrev pub respond_json : {A : Type 0} → (A → AdminAnswer) → Result A → Sent AdminAnswer
respond_json f (ok a) = send_json (f a)
respond_json f (err e) = refuse_with e

-- The response to an operation that changes the database.
abbrev pub respond_written : {D : Type 0} → Option GoError × D → Sent AdminAnswer × D
respond_written (none, db) = (send_ok, db)
respond_written (some e, db) = (refuse_with e, db)

-- `len(body) == 0 || body[0] != c`
abbrev pub begins_with : ℕ → Bytes → Bool
begins_with c [] = false
begins_with c (d ∷ body) = d == c

abbrev pub bad_request : Bytes → GoError
bad_request m = fiber 400 m

module _ ⦃u : Unicode⦄ (r : Repository) where
  -- `limit` and `offset` are what `QueryInt` has read.
  unfoldable pub get_reports_handler : ℤ → ℤ → r.Db → Sent AdminAnswer
  get_reports_handler limit offset db = respond_json reports_json (get_reports r limit offset db)

  unfoldable pub get_all_bans_handler : ℤ → ℤ → r.Db → Sent AdminAnswer
  get_all_bans_handler limit offset db = respond_json bans_json (get_all_bans r limit offset db)

  -- `none`: the check of the bag ID panics, as in the handlers below.
  unfoldable pub get_reports_by_bag_id_handler : Bytes → r.Db → Option (Sent AdminAnswer)
  get_reports_by_bag_id_handler raw db =
      let bag_id = to_lower raw in
      elim (validate_bag_id bag_id) [
        | none ↦ none
        | some valid ↦
            if valid
            then some (respond_json reports_json (get_reports_by_bag_id r bag_id db))
            else some (refuse_with (bad_request (text "invalid bagid")))
      ]

  unfoldable pub get_ban_handler : Bytes → r.Db → Option (Sent AdminAnswer)
  get_ban_handler raw db =
      let bag_id = to_lower raw in
      elim (validate_bag_id bag_id) [
        | none ↦ none
        | some valid ↦
            if valid
            then some (respond_json ban_json (get_ban r bag_id db))
            else some (refuse_with (bad_request (text "invalid bagid")))
      ]

  -- `parse` is `json.Unmarshal` into a slice of statuses.
  unfoldable pub update_ban_status_handler :
      (Bytes → Option (List BanStatus)) → Bytes → r.Db → Sent AdminAnswer × r.Db
  update_ban_status_handler parse body db =
      if begins_with b'[' body
      then elim (parse body) [
        | none ↦ (refuse_with (bad_request (text "invalid request body")), db)
        | some statuses ↦ respond_written (update_ban_status r statuses db)
      ]
      else (refuse_with (bad_request (text "invalid gzip body")), db)

  abbrev pub lowered : Report → Report
  lowered report = record report { bag_id = to_lower report.bag_id }

  -- `addReport` after the body is parsed.
  unfoldable pub add_parsed : Report → r.Db → Option (Sent AdminAnswer × r.Db)
  add_parsed report db = elim (validate_bag_id report.bag_id) [
    | none ↦ none
    | some valid ↦
        if valid
        then some (respond_written (add_report r report db))
        else some (refuse_with (bad_request (text "invalid bagid")), db)
  ]

  -- `parse` is `BodyParser` into a report.
  unfoldable pub add_report_handler :
      (Bytes → Option Report) → Bytes → r.Db → Option (Sent AdminAnswer × r.Db)
  add_report_handler parse body db =
      if begins_with b'{' body
      then elim (parse body) [
        | none ↦ some (refuse_with (bad_request (text "invalid request body")), db)
        | some report ↦ add_parsed (lowered report) db
      ]
      else some (refuse_with (bad_request (text "invalid gzip body")), db)
