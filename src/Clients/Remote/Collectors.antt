-- ===== src/Clients/Remote/Collectors.antt =====
-- pkg/clients/remote-ton-storage/metrics.go: the collectors of the remote client.
use mytonstorage_gateway.Common.{List, [], ◌∷◌}
use mytonstorage_gateway.Metrics.{Collector, Shape, collector, counter, gauge, histogram}
use mytonstorage_gateway.Text.{Bytes, text}

-- The type `RemoteTONStorageMetrics`
pub record RemoteMetrics : Type 0 where
  pub cache_hits : Collector
  pub cache_misses : Collector
  pub cache_evicts : Collector
  pub active_torrents : Collector
  pub downloader_creations : Collector
  pub downloader_creation_duration : Collector
  pub list_files_reqs : Collector
  pub list_files_duration : Collector
  pub stream_file_reqs : Collector
  pub stream_file_duration : Collector
  pub stream_file_ttfb : Collector
  pub stream_file_bytes : Collector
  pub active_streams : Collector

unfoldable pub new_remote_metrics : Bytes → Bytes → RemoteMetrics
new_remote_metrics namespace subsystem =
    let named : Bytes → List Bytes → Shape → Collector = collector namespace subsystem in
    let by_result : List Bytes = text "result" ∷ [] in
    record {
      cache_hits = named (text "cache_hits_total") [] counter;
      cache_misses = named (text "cache_misses_total") [] counter;
      cache_evicts = named (text "cache_evictions_total") [] counter;
      active_torrents = named (text "active_torrents") [] gauge;
      downloader_creations = named (text "downloader_creations_total") by_result counter;
      downloader_creation_duration = named (text "downloader_creation_duration_seconds") by_result (
          histogram (50 ∷ 100 ∷ 250 ∷ 500 ∷ 1000 ∷ 2000 ∷ 3000 ∷ 5000 ∷ 8000 ∷ 12000 ∷ 20000 ∷ []));
      list_files_reqs = named (text "list_files_requests_total") by_result counter;
      list_files_duration =
          named (text "list_files_duration_seconds") by_result
            (histogram (50 ∷ 100 ∷ 250 ∷ 500 ∷ 1000 ∷ 2000 ∷ 3000 ∷ 5000 ∷ 8000 ∷ 12000 ∷ []));
      stream_file_reqs = named (text "stream_file_requests_total") by_result counter;
      stream_file_duration = named (text "stream_file_duration_seconds") by_result (
          histogram (
            100 ∷ 250 ∷ 500 ∷ 1000 ∷ 2000 ∷ 3000 ∷ 5000 ∷ 8000 ∷ 12000 ∷ 20000 ∷ 30000 ∷ 45000
            ∷ 60000 ∷ []));
      stream_file_ttfb = named (text "stream_file_ttfb_seconds") by_result (
          histogram (10 ∷ 25 ∷ 50 ∷ 100 ∷ 250 ∷ 500 ∷ 750 ∷ 1000 ∷ 1500 ∷ 2000 ∷ 3000 ∷ 5000 ∷ []));
      stream_file_bytes = named (text "stream_file_bytes_total") [] counter;
      active_streams = named (text "active_streams") [] gauge;
    }

-- What `NewRemoteTONStorageMetrics` hands to `MustRegister`
unfoldable pub remote_collectors : RemoteMetrics → List Collector
remote_collectors m =
    m.cache_hits ∷ m.cache_misses ∷ m.cache_evicts ∷ m.active_torrents ∷ m.downloader_creations
    ∷ m.downloader_creation_duration ∷ m.list_files_reqs ∷ m.list_files_duration
    ∷ m.stream_file_reqs ∷ m.stream_file_duration ∷ m.stream_file_ttfb ∷ m.stream_file_bytes
    ∷ m.active_streams ∷ []
