-- ===== src/Cmd/Run/Ends.antt =====
-- When the process serves requests, and how it ends.
use mytonstorage_gateway.Common.{
  List, Option, Option-cases, [], any, ap, arith, false, inl, inr, none, refl, some, ◌++◌, ◌↔◌, ◌∷◌,
  ◌≡◌, ◌≢◌, ◌⊎◌,
}
use mytonstorage_gateway.Clients.Remote.Collectors.{new_remote_metrics, remote_collectors}
use mytonstorage_gateway.Clients.Remote.Opened.{Started, close, new_client}
use mytonstorage_gateway.Clients.Remote.Races.{quiet}
use mytonstorage_gateway.Cmd.Collectors.{db_collectors, remote_subsystem}
use mytonstorage_gateway.Cmd.Config.{Config, load_config}
use mytonstorage_gateway.Cmd.Postgres.{Connected, connect_postgres}
use mytonstorage_gateway.Cmd.Run.{
  Event, Platform, Ran, and_stop, db_events, end_with, exit_status, returns, run_process, serve,
  start_client, start_db, start_metrics, start_templates, started, stopped, with_client, with_db,
}
use mytonstorage_gateway.Cmd.Run.Course.{
  IsStarted, any-append, db_events-quiet, is_listening, run_of_IsStarted,
}
use mytonstorage_gateway.FilePath.{join_path}
use mytonstorage_gateway.HttpServer.Metrics.{http_collectors, new_http_metrics}
use mytonstorage_gateway.Models.{GoError, Result, err, ok}
use mytonstorage_gateway.Text.{Unicode, text}

module _ ⦃u : Unicode⦄ (o : Platform) where
  -- A run that neither serves nor ends well.
  abbrev IsVain : Ran → Type 0
  IsVain r = (exit_status r.ending ≢ 0) × (any is_listening r.events ≡ false)

  serve_ends :
      (config : Config) (s : Started) (reg : (o.registry).Registered) (events : List Event)
      → any is_listening events ≡ false
      → IsVain (serve o config s reg events)
        ⊎ ((reg' : (o.registry).Registered) × ((o.registry).must_register
                (http_collectors
                  (new_http_metrics config.metrics.namespace config.metrics.server_subsystem))
                reg
              ≡ some reg'))
  unfolding serve exit_status
  serve_ends config s reg events quiet =
      elim (Option-cases (
        (o.registry).must_register
          (http_collectors
            (new_http_metrics config.metrics.namespace config.metrics.server_subsystem))
          reg)) [
            | inl none' ↦ inl (rw (serve, none') ((λ e. omega (arith, e)), quiet))
            | inr (reg', e) ↦ inr (reg', e)
          ]

  start_templates_ends :
      (config : Config) (s : Started) (reg : (o.registry).Registered) (events : List Event)
      → any is_listening events ≡ false
      → IsVain (start_templates o config s reg events)
        ⊎ ((o.parse_glob (join_path (config.templates.path ∷ text "*.html" ∷ [])) ≡ none)
            × ((reg' : (o.registry).Registered) × ((o.registry).must_register
                    (http_collectors
                      (new_http_metrics config.metrics.namespace config.metrics.server_subsystem))
                    reg
                  ≡ some reg')))
  unfolding start_templates exit_status
  start_templates_ends config s reg events quiet =
      elim (Option-cases (o.parse_glob (join_path (config.templates.path ∷ text "*.html" ∷ [])))) [
        | inr (f, e) ↦ inl (rw (start_templates, e) ((λ e'. omega (arith, e')), quiet))
        | inl glob ↦ elim (serve_ends config s reg events quiet) [
          | inl vain ↦ inl (rw (start_templates, glob) vain)
          | inr started' ↦ inr (glob, started')
        ]
      ]

  end_with-IsVain :
      (e : GoError) (events more : List Event)
      → any is_listening events ≡ false
      → any is_listening more ≡ false
      → IsVain (end_with (returns (some e)) (events ++ more))
  unfolding exit_status
  end_with-IsVain e events more h k =
      ((λ e'. omega (arith, e')), rw (any-append is_listening events more, h, k) refl)

  and_stop-IsVain : (s : Started) (r : Ran) → IsVain r → IsVain (and_stop s r)
  and_stop-IsVain s r (bad, quiet) =
      (bad, rw (any-append is_listening r.events (stopped (close s).closed ∷ []), quiet) refl)

  -- The steps from the templates on succeed.
  abbrev Continues : Config → (o.registry).Registered → Type 0
  Continues config reg =
      (o.parse_glob (join_path (config.templates.path ∷ text "*.html" ∷ [])) ≡ none)
      × ((reg' : (o.registry).Registered) × ((o.registry).must_register
              (http_collectors
                (new_http_metrics config.metrics.namespace config.metrics.server_subsystem))
              reg
            ≡ some reg'))

  -- The steps from the collectors of the client on succeed.
  abbrev HasClient : Config → (o.registry).Registered → Type 0
  HasClient config reg =
      (reg' : (o.registry).Registered) × ((o.registry).must_register
          (remote_collectors (new_remote_metrics config.metrics.namespace remote_subsystem)) reg
        ≡ some reg')
      × ((new_client o.faults []).failed ≡ none)
      × Continues config reg'

  with_client_ends :
      (config : Config) (reg : (o.registry).Registered) (events : List Event) (s : Started)
      (failed : Option GoError)
      → s.failed ≡ failed
      → any is_listening events ≡ false
      → IsVain (with_client o config reg events s failed)
        ⊎ ((s.failed ≡ none) × Continues config reg)
  with_client_ends config reg events s (some e) h quiet =
      inl (end_with-IsVain e events (started s.opened ∷ stopped s.closed ∷ []) quiet refl)
  with_client_ends config reg events s none h quiet =
      elim (start_templates_ends config s reg (events ++ started s.opened ∷ [])
        (rw (any-append is_listening events (started s.opened ∷ []), quiet) refl)) [
          | inl vain ↦ inl (
              and_stop-IsVain s (start_templates o config s reg (events ++ started s.opened ∷ []))
                vain)
          | inr on ↦ inr (h, on)
        ]

  start_client_ends :
      (config : Config) (reg : (o.registry).Registered) (events : List Event)
      → any is_listening events ≡ false
      → IsVain (start_client o config reg events) ⊎ HasClient config reg
  unfolding exit_status start_client
  start_client_ends config reg events quiet =
      elim (Option-cases (
        (o.registry).must_register
          (remote_collectors (new_remote_metrics config.metrics.namespace remote_subsystem)) reg)) [
            | inl refused ↦ inl (rw (start_client, refused) ((λ e. omega (arith, e)), quiet))
            | inr (reg', remote) ↦
                elim (with_client_ends config reg' events (new_client o.faults []) _ refl quiet) [
                  | inl vain ↦ inl (rw (start_client, remote) vain)
                  | inr (client, on) ↦ inr (reg', remote, client, on)
                ]
          ]

  with_db_ends :
      (config : Config) (reg : (o.registry).Registered) (c : Connected) (failed : Option GoError)
      → c.failed ≡ failed
      → IsVain (with_db o config reg c failed) ⊎ ((c.failed ≡ none) × HasClient config reg)
  unfolding exit_status
  with_db_ends config reg c (some e) h = inl ((λ e'. omega (arith, e')), db_events-quiet c)
  with_db_ends config reg c none h =
      elim (start_client_ends config reg (db_events c) (db_events-quiet c)) [
        | inl vain ↦ inl vain
        | inr on ↦ inr (h, on)
      ]

  run_process_ends : IsVain (run_process o) ⊎ ((config : Config) × IsStarted o config)
  unfolding exit_status run_process start_metrics start_db
  run_process_ends = loaded (load_config o.environment) refl
    where
      registered :
          (config : Config) (hit : Option (o.registry).Registered)
          → load_config o.environment ≡ ok config
          → (o.registry).must_register (db_collectors config.metrics) o.registered ≡ hit
          → IsVain (run_process o) ⊎ ((config : Config) × IsStarted o config)
      registered config none load e =
          inl (rw (run_process, load, start_metrics, e) ((λ e'. omega (arith, e')), refl))
      registered config (some reg) load e =
          elim (with_db_ends config reg (connect_postgres o.driver config.db) _ refl) [
            | inl vain ↦ inl (rw (run_process, load, start_metrics, e, start_db) vain)
            | inr (conn, (reg', remote, client, (glob, (reg'', http)))) ↦
                inr (config, (load, reg, e, conn, reg', remote, client, glob, reg'', http))
          ]

      loaded :
          (hit : Result Config)
          → load_config o.environment ≡ hit
          → IsVain (run_process o) ⊎ ((config : Config) × IsStarted o config)
      loaded (err e) load = inl (rw (run_process, load) ((λ e'. omega (arith, e')), refl))
      loaded (ok config) load = registered config _ load refl

  -- What a process has to succeed in to serve: each step before the server, and `Listen`.
  abbrev pub IsServing : Config → Type 0
  IsServing config = IsStarted o config × (o.listen (b':' ∷ config.system.port) ≡ none)

  -- The process ends with status 0 exactly if every step up to the server has succeeded and the
  -- server was shut down without an error, whether or not it could listen.
  pub run_process-status_iff :
      (exit_status (run_process o).ending ≡ 0)
      ↔ (((config : Config) × IsStarted o config) × (o.shutdown ≡ none))
  unfolding exit_status
  run_process-status_iff = (there, (λ ((config, h), e). rw (run_of_IsStarted o config h, e) refl))
    where
      there :
          exit_status (run_process o).ending ≡ 0
          → ((config : Config) × IsStarted o config) × (o.shutdown ≡ none)
      there e = elim run_process_ends [
        | inl (bad, quiet) ↦ absurd (bad e)
        | inr (config, h) ↦ (
          (config, h),
          ground (arith, e, ap (λ (r : Ran). r.ending) (run_of_IsStarted o config h)),
        )
      ]
