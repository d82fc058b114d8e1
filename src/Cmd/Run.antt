-- ===== src/Cmd/Run.antt =====
-- `main` and `run` of cmd/main.go: the steps of the process, what they open and close, and how it
-- ends. Logging is left out. A signal that ends the process is taken to come.
pub mod Course
pub mod Ends
pub mod Released
use mytonstorage_gateway.Common.{List, Option, [], map, none, some, ℕ, ◌++◌, ◌∷◌}
use mytonstorage_gateway.Clients.Remote.Collectors.{new_remote_metrics, remote_collectors}
use mytonstorage_gateway.Clients.Remote.Opened.{Faults, Resource, Started, close, new_client}
use mytonstorage_gateway.Cmd.Collectors.{db_collectors, remote_subsystem}
use mytonstorage_gateway.Cmd.Config.{Config, Environment, load_config}
use mytonstorage_gateway.Cmd.Postgres.{Connected, DbResource, Driver, connect_postgres}
use mytonstorage_gateway.FilePath.{join_path}
use mytonstorage_gateway.HttpServer.Metrics.{http_collectors, new_http_metrics}
use mytonstorage_gateway.HttpServer.Tokens.{TokenPermissions, configured_tokens}
use mytonstorage_gateway.Metrics.{Registry}
use mytonstorage_gateway.Models.{GoError, err, ok}
use mytonstorage_gateway.Text.{Bytes, Unicode, text}

-- What the process does: `started` and `stopped` are of the remote client, in the order of its
-- resources.
pub data Event : Type 0 where
  acquires releases : DbResource → Event
  started stopped : List Resource → Event
  listens : Bytes → List (Bytes × TokenPermissions) → Event
  fails_to_listen : GoError → Event
  shuts_down : Event

-- How `run` ends: by `log.Fatalf`, by a panic of `MustRegister`, or by its return.
pub data Ending : Type 0 where
  dies : GoError → Ending
  panics : Ending
  returns : Option GoError → Ending

pub record Ran : Type 0 where
  pub ending : Ending
  pub events : List Event

-- What the process runs in: the environment, the registry, the driver of the database, the steps of
-- the remote client, `ParseGlob`, `Listen` at an address, with the error it has at once, and
-- `ShutdownWithTimeout`.
pub record Platform : Type 1 where
  pub environment : Environment
  pub registry : Registry
  pub registered : registry.Registered
  pub driver : Driver
  pub faults : Faults
  pub parse_glob : Bytes → Option GoError
  pub listen : Bytes → Option GoError
  pub shutdown : Option GoError

-- The end of `run` after the events.
abbrev pub end_with : Ending → List Event → Ran
end_with ending events = record { ending = ending; events = events }

-- The function that `run` defers once it has a client, which is run on a panic too.
abbrev pub and_stop : Started → Ran → Ran
and_stop s r = record r { events = r.events ++ stopped (close s).closed ∷ [] }

-- What the goroutine that calls `Listen` does: an error is only logged, and the process goes on to
-- wait for a signal.
abbrev pub listening : Option GoError → Bytes → List (Bytes × TokenPermissions) → Event
listening none address tokens = listens address tokens
listening (some e) address tokens = fails_to_listen e

abbrev pub db_events : Connected → List Event
db_events c = map acquires c.opened ++ map releases c.closed

module _ ⦃u : Unicode⦄ (o : Platform) where
  -- From the registration of the routes to the end.
  unfoldable pub serve : Config → Started → (o.registry).Registered → List Event → Ran
  serve config s reg events =
      let tokens = configured_tokens config.system.access_tokens in
      let address : Bytes = b':' ∷ config.system.port in
      let m = new_http_metrics config.metrics.namespace config.metrics.server_subsystem in
      elim ((o.registry).must_register (http_collectors m) reg) [
        | none ↦ end_with panics events
        | some _ ↦ end_with (returns o.shutdown) (
            events
            ++ listening (o.listen address) address tokens
              ∷ stopped (close s).closed
              ∷ shuts_down
              ∷ [])
      ]

  -- `New` of pkg/templates/templates.go, and what follows.
  unfoldable pub start_templates : Config → Started → (o.registry).Registered → List Event → Ran
  start_templates config s reg events =
      elim (o.parse_glob (join_path (config.templates.path ∷ text "*.html" ∷ []))) [
        | some e ↦ end_with (returns (some e)) events
        | none ↦ serve config s reg events
      ]

  -- With what `NewClient` has returned, and its error.
  abbrev pub with_client :
      Config → (o.registry).Registered → List Event → Started → Option GoError → Ran
  with_client config reg events s (some e) =
      end_with (returns (some e)) (events ++ started s.opened ∷ stopped s.closed ∷ [])
  with_client config reg events s none =
      and_stop s (start_templates config s reg (events ++ started s.opened ∷ []))

  -- The remote client and its collectors.
  unfoldable pub start_client : Config → (o.registry).Registered → List Event → Ran
  start_client config reg events =
      let m = new_remote_metrics config.metrics.namespace remote_subsystem in
      let s = new_client o.faults [] in
      elim ((o.registry).must_register (remote_collectors m) reg) [
        | none ↦ end_with panics events
        | some reg' ↦ with_client config reg' events s s.failed
      ]

  -- With what `connectPostgres` has returned, and its error.
  abbrev pub with_db : Config → (o.registry).Registered → Connected → Option GoError → Ran
  with_db config reg c (some e) = end_with (returns (some e)) (db_events c)
  with_db config reg c none = start_client config reg (db_events c)

  unfoldable pub start_db : Config → (o.registry).Registered → Ran
  start_db config reg = let c = connect_postgres o.driver config.db in with_db config reg c c.failed

  unfoldable pub start_metrics : Config → Ran
  start_metrics config =
      elim ((o.registry).must_register (db_collectors config.metrics) o.registered) [
        | none ↦ end_with panics []
        | some reg ↦ start_db config reg
      ]

  unfoldable pub run_process : Ran
  run_process = elim (load_config o.environment) [
    | err e ↦ end_with (dies e) []
    | ok config ↦ start_metrics config
  ]

-- The status with which `main` ends the process; that of a panic is the runtime's.
unfoldable pub exit_status : Ending → ℕ
exit_status (dies e) = 1
exit_status panics = 2
exit_status (returns none) = 0
exit_status (returns (some e)) = 1
