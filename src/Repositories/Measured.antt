-- ===== src/Repositories/Measured.antt =====
-- pkg/repositories/files/metrics.go: the middleware that counts the calls of a repository. The
-- durations are left out. The gauge does not fall below zero, since each call raises it first.
use mytonstorage_gateway.Common.{
  Bool, List, Option, [], arith, false, none, refl, some, true, ℕ, ℤ, ◌+◌, ◌-◌, ◌∙◌, ◌∷◌, ◌≡◌,
}
use mytonstorage_gateway.Models.{GoError, Result, err, ok}
use mytonstorage_gateway.Repositories.{DbBanStatus, DbReport, Repository}
use mytonstorage_gateway.Text.{Bytes, text}

-- The labels of one counted call: its method, and whether it failed.
pub record Labels : Type 0 where
  pub method : Bytes
  pub failed : Bool

-- The collectors: the calls that were counted, the last one first, and the gauge.
pub record Collectors : Type 0 where
  pub req_count : List Labels
  pub in_flight : ℕ

-- `inFlightGauge.Inc()` before the call
abbrev pub enter : Collectors → Collectors
enter m = record m { in_flight = m.in_flight + 1 }

-- The deferred function after the call
abbrev pub leave : Bytes → Bool → Collectors → Collectors
leave method failed m = record m {
  req_count = record { method = method; failed = failed } ∷ m.req_count;
  in_flight = m.in_flight - 1;
}

abbrev pub is_err : {A : Type 0} → Result A → Bool
is_err (ok a) = false
is_err (err e) = true

abbrev pub is_some : Option GoError → Bool
is_some none = false
is_some (some e) = true

-- The calls of a repository.
pub data RepositoryCall : Type 0 where
  calls_has_ban : Bytes → RepositoryCall
  calls_get_reports : ℤ → ℤ → RepositoryCall
  calls_get_reports_by_bag_id : Bytes → RepositoryCall
  calls_get_ban : Bytes → RepositoryCall
  calls_get_all_bans : ℤ → ℤ → RepositoryCall
  calls_add_report : DbReport → RepositoryCall
  calls_update_ban_status : List DbBanStatus → RepositoryCall

pub data RepositoryReply : Type 0 where
  told_bool : Result Bool → RepositoryReply
  told_reports : Result (List DbReport) → RepositoryReply
  told_ban : Result (Option DbBanStatus) → RepositoryReply
  told_bans : Result (List DbBanStatus) → RepositoryReply
  told_written : Option GoError → RepositoryReply

abbrev pub is_failure : RepositoryReply → Bool
is_failure (told_bool x) = is_err x
is_failure (told_reports x) = is_err x
is_failure (told_ban x) = is_err x
is_failure (told_bans x) = is_err x
is_failure (told_written x) = is_some x

abbrev pub method_name : RepositoryCall → Bytes
method_name (calls_has_ban b) = text "HasBan"
method_name (calls_get_reports l o) = text "GetReports"
method_name (calls_get_reports_by_bag_id b) = text "GetReportsByBagID"
method_name (calls_get_ban b) = text "GetBan"
method_name (calls_get_all_bans l o) = text "GetAllBans"
method_name (calls_add_report p) = text "AddReport"
method_name (calls_update_ban_status l) = text "UpdateBanStatus"

-- The labels of the calls, the last one first, after `old`.
unfoldable pub labels_of : List RepositoryCall → List RepositoryReply → List Labels → List Labels
labels_of [] replies old = old
labels_of (call ∷ calls) [] old = old
labels_of (call ∷ calls) (reply ∷ replies) old =
    labels_of calls replies (record { method = method_name call; failed = is_failure reply } ∷ old)

module _ (r : Repository) where
  -- `metricsMiddleware`, with the database of its repository
  pub record Measured : Type 0 where
    pub metrics : Collectors
    pub db : r.Db

  -- `NewMetrics`
  abbrev pub new_metrics : Collectors → r.Db → Measured
  new_metrics m db = record { metrics = m; db = db }

  -- A method that reads.
  abbrev pub measure_read :
      {A : Type 0} → Bytes → (r.Db → Result A) → Measured → Result A × Measured
  measure_read method call s =
      let result = call s.db in
      (result, record s { metrics = leave method (is_err result) (enter s.metrics) })

  -- A method that writes.
  abbrev pub measure_write :
      Bytes → (r.Db → Option GoError × r.Db) → Measured → Option GoError × Measured
  measure_write method call s =
      let (failed, db) = call s.db in
      (failed, record { metrics = leave method (is_some failed) (enter s.metrics); db = db })

  unfoldable pub measured_has_ban : Bytes → Measured → Result Bool × Measured
  measured_has_ban bag_id = measure_read (text "HasBan") (r.has_ban bag_id)

  unfoldable pub measured_get_reports : ℤ → ℤ → Measured → Result (List DbReport) × Measured
  measured_get_reports limit offset = measure_read (text "GetReports") (r.get_reports limit offset)

  unfoldable pub measured_get_reports_by_bag_id :
      Bytes → Measured → Result (List DbReport) × Measured
  measured_get_reports_by_bag_id bag_id =
      measure_read (text "GetReportsByBagID") (r.get_reports_by_bag_id bag_id)

  unfoldable pub measured_get_ban : Bytes → Measured → Result (Option DbBanStatus) × Measured
  measured_get_ban bag_id = measure_read (text "GetBan") (r.get_ban bag_id)

  unfoldable pub measured_get_all_bans : ℤ → ℤ → Measured → Result (List DbBanStatus) × Measured
  measured_get_all_bans limit offset =
      measure_read (text "GetAllBans") (r.get_all_bans limit offset)

  unfoldable pub measured_add_report : DbReport → Measured → Option GoError × Measured
  measured_add_report report = measure_write (text "AddReport") (r.add_report report)

  unfoldable pub measured_update_ban_status :
      List DbBanStatus → Measured → Option GoError × Measured
  measured_update_ban_status statuses =
      measure_write (text "UpdateBanStatus") (r.update_ban_status statuses)

  -- A call of the repository itself, and one through the middleware.
  abbrev pub call_plain : RepositoryCall → r.Db → RepositoryReply × r.Db
  call_plain (calls_has_ban b) db = (told_bool (r.has_ban b db), db)
  call_plain (calls_get_reports l o) db = (told_reports (r.get_reports l o db), db)
  call_plain (calls_get_reports_by_bag_id b) db = (told_reports (r.get_reports_by_bag_id b db), db)
  call_plain (calls_get_ban b) db = (told_ban (r.get_ban b db), db)
  call_plain (calls_get_all_bans l o) db = (told_bans (r.get_all_bans l o db), db)
  call_plain (calls_add_report p) db =
      let (failed, db') = r.add_report p db in (told_written failed, db')
  call_plain (calls_update_ban_status l) db =
      let (failed, db') = r.update_ban_status l db in (told_written failed, db')

  abbrev pub replied :
      {A : Type 0} → (A → RepositoryReply) → A × Measured → RepositoryReply × Measured
  replied f (a, s) = (f a, s)

  abbrev pub call_measured : RepositoryCall → Measured → RepositoryReply × Measured
  call_measured (calls_has_ban b) s = replied told_bool (measured_has_ban b s)
  call_measured (calls_get_reports l o) s = replied told_reports (measured_get_reports l o s)
  call_measured (calls_get_reports_by_bag_id b) s =
      replied told_reports (measured_get_reports_by_bag_id b s)
  call_measured (calls_get_ban b) s = replied told_ban (measured_get_ban b s)
  call_measured (calls_get_all_bans l o) s = replied told_bans (measured_get_all_bans l o s)
  call_measured (calls_add_report p) s = replied told_written (measured_add_report p s)
  call_measured (calls_update_ban_status l) s =
      replied told_written (measured_update_ban_status l s)

  -- One call through the middleware is the call itself, counted once with its method and whether it
  -- failed, and the gauge is what it was.
  abbrev IsCounted : RepositoryCall → Measured → Type 0
  IsCounted call s =
      ((call_measured call s).0 ≡ (call_plain call s.db).0)
      × ((call_measured call s).1.db ≡ (call_plain call s.db).1)
      × ((call_measured call s).1.metrics.in_flight ≡ s.metrics.in_flight)
      × ((call_measured call s).1.metrics.req_count
          ≡ record { method = method_name call; failed = is_failure (call_plain call s.db).0 }
            ∷ s.metrics.req_count)

  call_measured-IsCounted : (call : RepositoryCall) (s : Measured) → IsCounted call s
  unfolding measured_has_ban measured_get_reports measured_get_reports_by_bag_id measured_get_ban
      measured_get_all_bans measured_add_report measured_update_ban_status
  call_measured-IsCounted (calls_has_ban b) s = (refl, refl, omega arith, refl)
  call_measured-IsCounted (calls_get_reports l o) s = (refl, refl, omega arith, refl)
  call_measured-IsCounted (calls_get_reports_by_bag_id b) s = (refl, refl, omega arith, refl)
  call_measured-IsCounted (calls_get_ban b) s = (refl, refl, omega arith, refl)
  call_measured-IsCounted (calls_get_all_bans l o) s = (refl, refl, omega arith, refl)
  call_measured-IsCounted (calls_add_report p) s = (refl, refl, omega arith, refl)
  call_measured-IsCounted (calls_update_ban_status l) s = (refl, refl, omega arith, refl)

  -- Sequences of calls.
  unfoldable pub call_all_plain : List RepositoryCall → r.Db → List RepositoryReply × r.Db
  call_all_plain [] db = ([], db)
  call_all_plain (call ∷ calls) db =
      let (reply, db') = call_plain call db in
      let (replies, db'') = call_all_plain calls db' in (reply ∷ replies, db'')

  unfoldable pub call_all_measured :
      List RepositoryCall → Measured → List RepositoryReply × Measured
  call_all_measured [] s = ([], s)
  call_all_measured (call ∷ calls) s =
      let (reply, s') = call_measured call s in
      let (replies, s'') = call_all_measured calls s' in (reply ∷ replies, s'')

  -- The calls of a repository through the middleware get the replies of the repository itself and
  -- leave its database as it would be; the gauge ends where it was, and every call is counted once,
  -- with its method and whether it failed.
  pub call_all_measured-transparent :
      (calls : List RepositoryCall) (s : Measured)
      → ((call_all_measured calls s).0 ≡ (call_all_plain calls s.db).0)
        × ((call_all_measured calls s).1.db ≡ (call_all_plain calls s.db).1)
        × ((call_all_measured calls s).1.metrics.in_flight ≡ s.metrics.in_flight)
        × ((call_all_measured calls s).1.metrics.req_count
            ≡ labels_of calls (call_all_plain calls s.db).0 s.metrics.req_count)
  unfolding call_all_measured call_all_plain labels_of
  call_all_measured-transparent [] s = (refl, refl, refl, refl)
  call_all_measured-transparent (call ∷ calls) s =
      let (reply, db, gauge, counted) = call_measured-IsCounted call s in
      let (replies, dbs, gauges, labels) =
        call_all_measured-transparent calls (call_measured call s).1 in
      (
        rw (reply, replies, db) refl,
        rw (dbs, db) refl,
        gauges ∙ gauge,
        rw (labels, db, counted) refl,
      )
