-- ===== src/HttpServer/Metrics.antt =====
-- pkg/httpServer/metrics.go: the collectors of the server and the middleware that feeds them. The
-- durations themselves are left out.
pub mod Counted
use mytonstorage_gateway.Common.{List, Option, [], if◌then◌else◌, none, some, ℕ, ◌∷◌}
use mytonstorage_gateway.Metrics.{Collector, collector, counter, gauge, histogram}
use mytonstorage_gateway.Models.{GoError}
use mytonstorage_gateway.Text.{Bytes, bytes_eq, text}
use mytonstorage_gateway.Text.Decimal.{decimal}

-- The type `metrics`
pub record HttpMetrics : Type 0 where
  pub total_requests : Collector
  pub duration_sec : Collector
  pub inflight_request : Collector

unfoldable pub new_http_metrics : Bytes → Bytes → HttpMetrics
new_http_metrics namespace subsystem =
    let labels : List Bytes = text "route" ∷ text "method" ∷ text "code" ∷ [] in
    let inflight_labels : List Bytes = text "route" ∷ text "method" ∷ [] in
    record {
      total_requests = collector namespace subsystem (text "requests_total") labels counter;
      duration_sec = collector namespace subsystem (text "requests_duration") labels (
          histogram (
            10 ∷ 25 ∷ 50 ∷ 100 ∷ 250 ∷ 500 ∷ 750 ∷ 1000 ∷ 1500 ∷ 2000 ∷ 3000 ∷ 5000 ∷ 8000 ∷ 12000
            ∷ []));
      inflight_request =
          collector namespace subsystem (text "requests_inflight") inflight_labels gauge;
    }

-- What `newMetrics` hands to `MustRegister`
abbrev pub http_collectors : HttpMetrics → List Collector
http_collectors m = m.total_requests ∷ m.duration_sec ∷ m.inflight_request ∷ []

-- What the middleware does to a collector, at label values.
pub data Update : Type 0 where
  total_inc duration_observe inflight_inc inflight_dec : List Bytes → Update

-- What `Next` leaves: its error, and the status of the response at that time.
pub record Handled : Type 0 where
  pub error : Option GoError
  pub status : ℕ

-- `ctx.Route()` as the middleware sees it, and the method.
pub record Arrived : Type 0 where
  pub route : Option Bytes
  pub method : Bytes

unfoldable pub route_label : Option Bytes → Bytes
route_label none = text "<unmatched>"
route_label (some path) = if bytes_eq path [] then text "<unmatched>" else path

-- The label values of a request, before and after it is handled.
abbrev pub inflight_values : Arrived → List Bytes
inflight_values a = route_label a.route ∷ a.method ∷ []

abbrev pub values_with_code : Arrived → ℕ → List Bytes
values_with_code a status = route_label a.route ∷ a.method ∷ decimal status ∷ []

-- The middleware up to `Next`, and after it with the deferred call; the last update stands first.
unfoldable pub before_next : Arrived → List Update → List Update
before_next a log = inflight_inc (inflight_values a) ∷ log

unfoldable pub after_next : Arrived → ℕ → List Update → List Update
after_next a status log =
    inflight_dec (inflight_values a)
    ∷ duration_observe (values_with_code a status)
    ∷ total_inc (values_with_code a status)
    ∷ log

-- `metricsMiddleware` around `next`, which runs in a world with the updates.
unfoldable pub metrics_middleware :
    {W : Type 0}
    → Arrived
    → (List Update × W → Handled × (List Update × W))
    → List Update × W
    → Option GoError × (List Update × W)
metrics_middleware a next (log, w) =
    let (handled, (log', w')) = next (before_next a log, w) in
    (handled.error, (after_next a handled.status log', w'))
