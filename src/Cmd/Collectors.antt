-- ===== src/Cmd/Collectors.antt =====
-- The collectors of the database in `run` of cmd/main.go, beside those of the other packages.
use mytonstorage_gateway.Common.{List, [], refl, true, ◌∷◌, ◌≡◌}
use mytonstorage_gateway.Clients.Remote.Collectors.{new_remote_metrics, remote_collectors}
use mytonstorage_gateway.Cmd.Config.{MetricsConfig}
use mytonstorage_gateway.HttpServer.Metrics.{http_collectors, new_http_metrics}
use mytonstorage_gateway.Metrics.{
  Collector, collector, counter, gauge, histogram, is_distinct, is_group, is_rising,
}
use mytonstorage_gateway.Text.{Bytes, text}
use mytonstorage_gateway.Text.Laws.{bytes_eq_refl}

-- `dbRequestsCount`, `dbRequestsDuration` and `dbRequestsInFlight`
unfoldable pub db_collectors : MetricsConfig → List Collector
db_collectors m =
    let labels : List Bytes = text "method" ∷ text "error" ∷ [] in
    collector m.namespace m.db_subsystem (text "db_requests_count") labels counter
    ∷ collector m.namespace m.db_subsystem (text "db_requests_duration") labels (histogram [])
    ∷ collector m.namespace m.db_subsystem (text "db_requests_in_flight") [] gauge
    ∷ []

abbrev pub remote_subsystem : Bytes
remote_subsystem = text "remote-ton-storage"

-- In each of the three calls of `MustRegister`, whatever the configured names are, the collectors are
-- of one namespace and subsystem and have different names, each has different label names, and the
-- buckets of each histogram rise.
pub collectors-is_group :
    (m : MetricsConfig)
    → (is_group m.namespace m.db_subsystem (db_collectors m) ≡ true)
      × (is_group m.namespace remote_subsystem
            (remote_collectors (new_remote_metrics m.namespace remote_subsystem))
          ≡ true)
      × (is_group m.namespace m.server_subsystem
            (http_collectors (new_http_metrics m.namespace m.server_subsystem))
          ≡ true)
unfolding is_group is_distinct is_rising db_collectors remote_collectors new_remote_metrics
    new_http_metrics
collectors-is_group m =
    rw (bytes_eq_refl m.namespace, bytes_eq_refl m.db_subsystem, bytes_eq_refl m.server_subsystem)
      (refl, refl, refl)
