-- ===== src/Cmd/Run/Course.antt =====
-- What a process does that comes to serve requests, as its steps make it.
use mathlib.Core.List.{append_assoc}
use mytonstorage_gateway.Common.{
  Bool, List, Option, [], any, ap, arith, false, map, none, refl, some, true, ◌++◌, ◌||◌, ◌∙◌, ◌∷◌,
  ◌≡◌,
}
use mytonstorage_gateway.Clients.Remote.Collectors.{new_remote_metrics, remote_collectors}
use mytonstorage_gateway.Clients.Remote.Opened.{close, new_client}
use mytonstorage_gateway.Cmd.Collectors.{db_collectors, remote_subsystem}
use mytonstorage_gateway.Cmd.Config.{Config, load_config}
use mytonstorage_gateway.Cmd.Postgres.{Connected, DbResource, connect_postgres}
use mytonstorage_gateway.Cmd.Run.{
  Event, Platform, acquires, db_events, end_with, fails_to_listen, listening, listens, releases,
  returns, run_process, serve, shuts_down, start_client, start_db, start_metrics, start_templates,
  started, stopped, with_client,
}
use mytonstorage_gateway.FilePath.{join_path}
use mytonstorage_gateway.HttpServer.Metrics.{http_collectors, new_http_metrics}
use mytonstorage_gateway.HttpServer.Tokens.{TokenPermissions, configured_tokens}
use mytonstorage_gateway.Models.{GoError, ok}
use mytonstorage_gateway.Text.{Bytes, Unicode, text}

abbrev pub is_listening : Event → Bool
is_listening (acquires r) = false
is_listening (releases r) = false
is_listening (started l) = false
is_listening (stopped l) = false
is_listening (listens address tokens) = true
is_listening (fails_to_listen e) = false
is_listening shuts_down = false

pub any-append {ℓ} :
    {A : Type ℓ} (p : A → Bool) (xs ys : List A) → any p (xs ++ ys) ≡ (any p xs || any p ys)
any-append p [] ys = refl
any-append p (x ∷ xs) ys = ground (arith, any-append p xs ys)

acquires-quiet : (l : List DbResource) → any is_listening (map acquires l) ≡ false
acquires-quiet [] = refl
acquires-quiet (r ∷ l) = acquires-quiet l

releases-quiet : (l : List DbResource) → any is_listening (map releases l) ≡ false
releases-quiet [] = refl
releases-quiet (r ∷ l) = releases-quiet l

pub db_events-quiet : (c : Connected) → any is_listening (db_events c) ≡ false
db_events-quiet c =
    rw
      (
        any-append is_listening (map acquires c.opened) (map releases c.closed),
        acquires-quiet c.opened,
        releases-quiet c.closed,
      )
      refl

-- The address and the tokens with which the server listens.
unfoldable pub served : List Event → Option (Bytes × List (Bytes × TokenPermissions))
served [] = none
served (acquires r ∷ events) = served events
served (releases r ∷ events) = served events
served (started l ∷ events) = served events
served (stopped l ∷ events) = served events
served (listens address tokens ∷ events) = some (address, tokens)
served (fails_to_listen e ∷ events) = served events
served (shuts_down ∷ events) = served events

pub served-append :
    (xs ys : List Event) → any is_listening xs ≡ false → served (xs ++ ys) ≡ served ys
unfolding served
served-append [] ys h = refl
served-append (acquires r ∷ xs) ys h = served-append xs ys h
served-append (releases r ∷ xs) ys h = served-append xs ys h
served-append (started l ∷ xs) ys h = served-append xs ys h
served-append (stopped l ∷ xs) ys h = served-append xs ys h
served-append (listens address tokens ∷ xs) ys h = cc
served-append (fails_to_listen e ∷ xs) ys h = served-append xs ys h
served-append (shuts_down ∷ xs) ys h = served-append xs ys h

pub served-quiet : (xs : List Event) → any is_listening xs ≡ false → served xs ≡ none
unfolding served
served-quiet [] h = refl
served-quiet (acquires r ∷ xs) h = served-quiet xs h
served-quiet (releases r ∷ xs) h = served-quiet xs h
served-quiet (started l ∷ xs) h = served-quiet xs h
served-quiet (stopped l ∷ xs) h = served-quiet xs h
served-quiet (listens address tokens ∷ xs) h = cc
served-quiet (fails_to_listen e ∷ xs) h = served-quiet xs h
served-quiet (shuts_down ∷ xs) h = served-quiet xs h

module _ ⦃u : Unicode⦄ (o : Platform) where
  -- Every step before the server succeeds, with the settings.
  abbrev pub IsStarted : Config → Type 0
  IsStarted config =
      (load_config o.environment ≡ ok config)
      × (reg : (o.registry).Registered) × ((o.registry).must_register (db_collectors config.metrics)
            o.registered
          ≡ some reg)
      × ((connect_postgres o.driver config.db).failed ≡ none)
      × (reg' : (o.registry).Registered) × ((o.registry).must_register
            (remote_collectors (new_remote_metrics config.metrics.namespace remote_subsystem)) reg
          ≡ some reg')
      × ((new_client o.faults []).failed ≡ none)
      × (o.parse_glob (join_path (config.templates.path ∷ text "*.html" ∷ [])) ≡ none)
      × (reg'' : (o.registry).Registered) × ((o.registry).must_register
            (http_collectors
              (new_http_metrics config.metrics.namespace config.metrics.server_subsystem))
            reg'
          ≡ some reg'')

  -- What a process does that comes to call `Listen`.
  abbrev pub course : Config → List Event
  course config =
      let address : Bytes = b':' ∷ config.system.port in
      let s = new_client o.faults [] in
      ((db_events (connect_postgres o.driver config.db) ++ started s.opened ∷ [])
        ++ listening (o.listen address) address (configured_tokens config.system.access_tokens)
          ∷ stopped (close s).closed
          ∷ shuts_down
          ∷ [])
      ++ stopped (close s).closed ∷ []

  pub run_of_IsStarted :
      (config : Config)
      → IsStarted config
      → run_process o ≡ end_with (returns o.shutdown) (course config)
  unfolding run_process start_metrics start_db start_client start_templates serve
  run_of_IsStarted config (load, reg, db, conn, reg', remote, client, glob, reg'', http) =
      rw (run_process, load, start_metrics, db, start_db, conn, start_client, remote)
        (ap (with_client o config reg' _ _) client ∙ rw (start_templates, glob, serve, http) refl)

  abbrev pub served_with : Config → Bytes × List (Bytes × TokenPermissions)
  served_with config = (b':' ∷ config.system.port, configured_tokens config.system.access_tokens)

  -- With what `Listen` has returned.
  abbrev pub served_after :
      Option GoError → Config → Option (Bytes × List (Bytes × TokenPermissions))
  served_after none config = some (served_with config)
  served_after (some e) config = none

  abbrev listening_course : Option GoError → Config → List Event
  listening_course failed config =
      let s = new_client o.faults [] in
      listening failed (b':' ∷ config.system.port) (configured_tokens config.system.access_tokens)
      ∷ stopped (close s).closed
      ∷ shuts_down
      ∷ []

  listening_course-served :
      (failed : Option GoError) (config : Config)
      → served
          (listening_course failed config ++ stopped (close (new_client o.faults [])).closed ∷ [])
        ≡ served_after failed config
  unfolding served
  listening_course-served none config = refl
  listening_course-served (some e) config = refl

  pub served-course :
      (config : Config)
      → served (course config) ≡ served_after (o.listen (b':' ∷ config.system.port)) config
  unfolding served
  served-course config =
      let c = connect_postgres o.driver config.db in
      let s = new_client o.faults [] in
      let rest : List Event = listening_course (o.listen (b':' ∷ config.system.port)) config in
      rw
        (
          append_assoc (db_events c ++ started s.opened ∷ []) rest (stopped (close s).closed ∷ []),
          append_assoc (db_events c) (started s.opened ∷ [])
              (rest ++ stopped (close s).closed ∷ []),
          served-append (db_events c) (started s.opened ∷ (rest ++ stopped (close s).closed ∷ []))
              (db_events-quiet c),
        )
        (listening_course-served (o.listen (b':' ∷ config.system.port)) config)
