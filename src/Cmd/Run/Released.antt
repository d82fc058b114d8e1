-- ===== src/Cmd/Run/Released.antt =====
-- What `run` has opened is closed when it ends.
use mathlib.Core.List.{reverse}
use mytonstorage_gateway.Common.{
  List, Option, Option-cases, [], ap, arith, inl, inr, map, none, refl, some, sym, ◌++◌, ◌∙◌, ◌∷◌,
  ◌≡◌, ◌⊎◌,
}
use mytonstorage_gateway.Clients.Remote.Collectors.{new_remote_metrics, remote_collectors}
use mytonstorage_gateway.Clients.Remote.Opened.{Resource, Started, close, close-reverse, new_client}
use mytonstorage_gateway.Clients.Remote.Races.{quiet}
use mytonstorage_gateway.Cmd.Collectors.{db_collectors, remote_subsystem}
use mytonstorage_gateway.Cmd.Config.{Config, load_config}
use mytonstorage_gateway.Cmd.Postgres.{Connected, DbResource, connect_postgres}
use mytonstorage_gateway.Cmd.Run.{
  Event, Platform, Ran, acquires, db_events, fails_to_listen, listening, listens, releases,
  run_process, serve, shuts_down, start_client, start_db, start_metrics, start_templates, started,
  stopped, with_client, with_db,
}
use mytonstorage_gateway.FilePath.{join_path}
use mytonstorage_gateway.HttpServer.Metrics.{http_collectors, new_http_metrics}
use mytonstorage_gateway.HttpServer.Tokens.{TokenPermissions}
use mytonstorage_gateway.Models.{GoError, Result, err, ok}
use mytonstorage_gateway.Text.{Bytes, Unicode, text}

-- The events of the remote client.
unfoldable pub client_part : List Event → List Event
client_part [] = []
client_part (acquires r ∷ events) = client_part events
client_part (releases r ∷ events) = client_part events
client_part (started l ∷ events) = started l ∷ client_part events
client_part (stopped l ∷ events) = stopped l ∷ client_part events
client_part (listens address tokens ∷ events) = client_part events
client_part (fails_to_listen e ∷ events) = client_part events
client_part (shuts_down ∷ events) = client_part events

client_part-append :
    (xs ys : List Event) → client_part (xs ++ ys) ≡ client_part xs ++ client_part ys
unfolding client_part
client_part-append [] ys = refl
client_part-append (acquires r ∷ xs) ys = client_part-append xs ys
client_part-append (releases r ∷ xs) ys = client_part-append xs ys
client_part-append (started l ∷ xs) ys = ap (λ t. started l ∷ t) (client_part-append xs ys)
client_part-append (stopped l ∷ xs) ys = ap (λ t. stopped l ∷ t) (client_part-append xs ys)
client_part-append (listens address tokens ∷ xs) ys = client_part-append xs ys
client_part-append (fails_to_listen e ∷ xs) ys = client_part-append xs ys
client_part-append (shuts_down ∷ xs) ys = client_part-append xs ys

listening-client_part :
    (failed : Option GoError) (address : Bytes) (tokens : List (Bytes × TokenPermissions))
    (events : List Event)
    → client_part (listening failed address tokens ∷ events) ≡ client_part events
unfolding client_part
listening-client_part none address tokens events = refl
listening-client_part (some e) address tokens events = refl

acquires-client_part : (l : List DbResource) → client_part (map acquires l) ≡ []
unfolding client_part
acquires-client_part [] = refl
acquires-client_part (r ∷ l) = acquires-client_part l

releases-client_part : (l : List DbResource) → client_part (map releases l) ≡ []
unfolding client_part
releases-client_part [] = refl
releases-client_part (r ∷ l) = releases-client_part l

db_events-client_part : (c : Connected) → client_part (db_events c) ≡ []
db_events-client_part c =
    rw
      (
        client_part-append (map acquires c.opened) (map releases c.closed),
        acquires-client_part c.opened,
        releases-client_part c.closed,
      )
      refl

-- The remote client is not started, or it is started once, and all that it has opened is closed
-- once or twice, the last one first.
pub data StopsClient : List Event → Type 0 where
  never_started : StopsClient []
  stops_once : (l : List Resource) → StopsClient (started l ∷ stopped (reverse l) ∷ [])
  stops_twice :
      (l : List Resource) → StopsClient (started l ∷ stopped (reverse l) ∷ stopped (reverse l) ∷ [])

close-opened : (s : Started) → (close s).opened ≡ s.opened
unfolding close
close-opened s = ground arith

close-failed : (s : Started) (e : GoError) → s.failed ≡ some e → (close s).closed ≡ s.closed
unfolding close
close-failed s e h = ground (arith, h)

module _ ⦃u : Unicode⦄ (o : Platform) where
  -- What is left of the run adds at most one end of the client.
  abbrev AddsEnd : Started → List Event → Ran → Type 0
  AddsEnd s events r =
      (client_part r.events ≡ client_part events)
      ⊎ (client_part r.events ≡ client_part events ++ stopped (close s).closed ∷ [])

  serve-AddsEnd :
      (config : Config) (s : Started) (reg : (o.registry).Registered) (events : List Event)
      → AddsEnd s events (serve o config s reg events)
  unfolding serve client_part
  serve-AddsEnd config s reg events =
      elim (Option-cases (
        (o.registry).must_register
          (http_collectors
            (new_http_metrics config.metrics.namespace config.metrics.server_subsystem))
          reg)) [
            | inl refused ↦ inl (rw (serve, refused) refl)
            | inr (reg', e) ↦ inr (
                rw (serve, e)
                  (client_part-append events _
                    ∙ ap (λ t. client_part events ++ t)
                        (listening-client_part (o.listen (b':' ∷ config.system.port)) _ _ _)))
          ]

  start_templates-AddsEnd :
      (config : Config) (s : Started) (reg : (o.registry).Registered) (events : List Event)
      → AddsEnd s events (start_templates o config s reg events)
  unfolding start_templates
  start_templates-AddsEnd config s reg events =
      elim (Option-cases (o.parse_glob (join_path (config.templates.path ∷ text "*.html" ∷ [])))) [
        | inr (f, e) ↦ inl (rw (start_templates, e) refl)
        | inl glob ↦ rw (start_templates, glob) (serve-AddsEnd config s reg events)
      ]

  closed_reverse : (close (new_client o.faults [])).closed ≡ reverse (new_client o.faults []).opened
  closed_reverse = close-reverse o.faults [] ∙ ap reverse (close-opened (new_client o.faults []))

  with_client-StopsClient :
      (config : Config) (reg : (o.registry).Registered) (events : List Event)
      (failed : Option GoError)
      → (new_client o.faults []).failed ≡ failed
      → client_part events ≡ []
      → StopsClient
          (client_part (with_client o config reg events (new_client o.faults []) failed).events)
  unfolding client_part
  with_client-StopsClient config reg events (some e) h quiet =
      let s = new_client o.faults [] in
      rw
        (
          client_part-append events (started s.opened ∷ stopped s.closed ∷ []),
          quiet,
          sym (close-failed s e h),
          closed_reverse,
        )
        (stops_once s.opened)
  with_client-StopsClient config reg events none h quiet =
      let s = new_client o.faults [] in
      let so_far : List Event = events ++ started s.opened ∷ [] in
      let opened_only : client_part so_far ≡ started s.opened ∷ [] =
        rw (client_part-append events (started s.opened ∷ []), quiet) refl in
      elim (start_templates-AddsEnd config s reg so_far) [
        | inl same ↦
            rw
              (
                client_part-append (start_templates o config s reg so_far).events _,
                same,
                opened_only,
                closed_reverse,
              )
              (stops_once s.opened)
        | inr more ↦
            rw
              (
                client_part-append (start_templates o config s reg so_far).events _,
                more,
                opened_only,
                closed_reverse,
              )
              (stops_twice s.opened)
      ]

  start_client-StopsClient :
      (config : Config) (reg : (o.registry).Registered) (events : List Event)
      → client_part events ≡ []
      → StopsClient (client_part (start_client o config reg events).events)
  unfolding start_client
  start_client-StopsClient config reg events quiet =
      elim (Option-cases (
        (o.registry).must_register
          (remote_collectors (new_remote_metrics config.metrics.namespace remote_subsystem)) reg)) [
            | inl refused ↦ rw (start_client, refused, quiet) never_started
            | inr (reg', remote) ↦
                rw (start_client, remote) (with_client-StopsClient config reg' events _ refl quiet)
          ]

  with_db-StopsClient :
      (config : Config) (reg : (o.registry).Registered) (c : Connected) (failed : Option GoError)
      → StopsClient (client_part (with_db o config reg c failed).events)
  with_db-StopsClient config reg c (some e) = rw (db_events-client_part c) never_started
  with_db-StopsClient config reg c none =
      start_client-StopsClient config reg (db_events c) (db_events-client_part c)

  -- However the process ends, by a failed step, a panic of a registration or a signal: the remote
  -- client is never started, or it is started once, and all that it has opened is closed, the last
  -- one first, once or, after a signal, twice.
  pub run_process-StopsClient : StopsClient (client_part (run_process o).events)
  unfolding run_process start_metrics start_db client_part
  run_process-StopsClient = loaded (load_config o.environment) refl
    where
      loaded :
          (hit : Result Config)
          → load_config o.environment ≡ hit
          → StopsClient (client_part (run_process o).events)
      loaded (err e) load = rw (run_process, load) never_started
      loaded (ok config) load =
          elim (Option-cases
            ((o.registry).must_register (db_collectors config.metrics) o.registered)) [
              | inl refused ↦ rw (run_process, load, start_metrics, refused) never_started
              | inr (reg, e) ↦
                  rw (run_process, load, start_metrics, e, start_db)
                    (with_db-StopsClient config reg (connect_postgres o.driver config.db) _)
            ]
