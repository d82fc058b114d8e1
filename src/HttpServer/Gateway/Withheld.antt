-- ===== src/HttpServer/Gateway/Withheld.antt =====
-- The gateway over the cached service that cmd/main.go puts together, for a bag that was banned.
use mytonstorage_gateway.Common.{
  All, Bool, Bool-cases, List, Option, [], arith, false, if◌then◌else◌, inl, inr, none, some, true,
  ℕ, ◌+◌, ◌<◌, ◌≡◌,
}
use mytonstorage_gateway.Clients.Storage.{StorageClient, Transport}
use mytonstorage_gateway.Dict.{IsMap, lookup}
use mytonstorage_gateway.HttpServer.Gateway.{
  Request, Site, get_bag, get_bag_info_response, get_path, look_up, refuse, respond_reply,
  send_rendered, should_serve_loading_shell,
}
use mytonstorage_gateway.HttpServer.Response.{Sent}
use mytonstorage_gateway.HttpServer.Serve.{Answer, Host}
use mytonstorage_gateway.HttpServer.Validate.{sanitize_path}
use mytonstorage_gateway.HttpServer.Validate.BagId.{validate_bag_id-total}
use mytonstorage_gateway.Models.{GoError, Result, err, fiber, ok}
use mytonstorage_gateway.Repositories.{DbBanStatus, update_ban_status}
use mytonstorage_gateway.Repositories.Coherence.{IsLower, status_entries}
use mytonstorage_gateway.Repositories.Sql.{Statement, Tables, new_repository}
use mytonstorage_gateway.Services.Files.Cached.{
  CachedRequest, CachedState, get_path_info_cached, serve_all,
}
use mytonstorage_gateway.Services.Files.Cached.Hits.{IsStoredBy}
use mytonstorage_gateway.Services.Files.Cached.Returned.{serve_all_returns}
use mytonstorage_gateway.Services.Files.Ensure.{Outside}
use mytonstorage_gateway.Services.Files.Local.{Reply}
use mytonstorage_gateway.Services.Files.Service.Clock.{IsClocked}
use mytonstorage_gateway.Services.Files.Wired.{WiredWorld, wire}
use mytonstorage_gateway.Services.Files.Wired.Banned.{Refused, banned_reply, failed_reply}
use mytonstorage_gateway.Services.Files.Wired.Ended.{ban-Ended, cached_after_bans}
use mytonstorage_gateway.Services.Files.Wired.Ending.{IsPlainId, SqlCoherent}
use mytonstorage_gateway.Templates.{TemplateData, html_loading_page}
use mytonstorage_gateway.Text.{Bytes, Unicode, text, to_lower}
use mytonstorage_gateway.Text.Unescape.{query_unescape}

-- A response without anything of the bag: an error, with its status and message, or the page that
-- is shown while a bag is loaded.
pub data Withheld ⦃u : Unicode⦄ {W : Type 0} (to_upper : Bytes → Bytes)
    (execute : Bytes → Option TemplateData → Result Bytes) : Option (Sent Answer × W) → Type 0 where
  by_error : (e : GoError) (w : W) → Withheld to_upper execute (some (refuse e, w))
  by_shell :
      (w : W)
      → Withheld to_upper execute (some (send_rendered (html_loading_page to_upper execute), w))

module _ ⦃u : Unicode⦄ (o : Outside) (fault : Statement → Tables → Option GoError) (h : Transport)
    (c : StorageClient) (host : Host) (to_upper : Bytes → Bytes)
    (execute : Bytes → Option TemplateData → Result Bytes) where
  -- The handlers of a request which reads the clock of the cache at these times.
  abbrev pub cached_site : ℕ → ℕ → Site
  cached_site t_get t_set = record {
    World = CachedState (WiredWorld o fault h c);
    files = get_path_info_cached (wire o fault h c) t_get t_set;
    host = host;
    to_upper = to_upper;
    execute = execute;
  }

  Refused-Withheld :
      (t_get t_set : ℕ) (path : Bytes)
      (asked : Option (Reply × CachedState (WiredWorld o fault h c)))
      → Refused asked
      → Withheld to_upper execute (respond_reply (cached_site t_get t_set) path asked)
  Refused-Withheld t_get t_set path _ banned_reply = by_error _ _
  Refused-Withheld t_get t_set path _ failed_reply = by_error _ _

  -- Where the service refuses every path of a bag, the handler gives nothing of it.
  response-Withheld :
      (t_get t_set : ℕ) (req : Request) (bag_id raw : Bytes)
      (s : CachedState (WiredWorld o fault h c))
      → ((path : Bytes)
          → Refused (get_path_info_cached (wire o fault h c) t_get t_set bag_id path s))
      → Withheld to_upper execute (get_bag_info_response (cached_site t_get t_set) req bag_id raw s)
  unfolding get_bag_info_response look_up
  response-Withheld t_get t_set req bag_id raw s refused =
      let (valid, was, iff) = validate_bag_id-total bag_id in
      rw (was, get_bag_info_response) (checked valid (sanitize_path raw))
    where
      looked :
          (path : Bytes)
          → Withheld to_upper execute (look_up (cached_site t_get t_set) req bag_id path s)
      looked path = elim (Bool-cases (should_serve_loading_shell req)) [
        | inl shell ↦ rw (shell, look_up) (by_shell s)
        | inr no_shell ↦
            rw (no_shell, look_up)
              (Refused-Withheld t_get t_set path
                (get_path_info_cached (wire o fault h c) t_get t_set bag_id path s) (refused path))
      ]

      checked :
          (valid : Bool) (cleaned : Result Bytes)
          → Withheld to_upper execute (
              if valid
              then elim cleaned [
                | err e ↦ some (refuse e, s)
                | ok path ↦ look_up (cached_site t_get t_set) req bag_id path s
              ]
              else some (refuse (fiber 400 (text "invalid bagid")), s))
      checked false cleaned = by_error (fiber 400 (text "invalid bagid")) s
      checked true (err e) = by_error e s
      checked true (ok path) = looked path

  decoded :
      (t_get t_set : ℕ) (req : Request) (bag_id : Bytes) (s : CachedState (WiredWorld o fault h c))
      (path : Option Bytes)
      → ((p : Bytes)
          → Refused (get_path_info_cached (wire o fault h c) t_get t_set (to_lower bag_id) p s))
      → Withheld to_upper execute (elim path [
        | none ↦ some (refuse (fiber 400 (text "invalid path encoding")), s)
        | some p ↦ get_bag_info_response (cached_site t_get t_set) req (to_lower bag_id) p s
      ])
  decoded t_get t_set req bag_id s none refused =
      by_error (fiber 400 (text "invalid path encoding")) s
  decoded t_get t_set req bag_id s (some p) refused =
      response-Withheld t_get t_set req (to_lower bag_id) p s refused

  -- The clock of the remote client's world is that of the whole.
  wire-IsClocked : IsClocked o → IsClocked (wire o fault h c)
  wire-IsClocked k = record {
    clock = λ w. k.clock w.rest;
    clock-get_bag = λ b w. omega arith;
    now-after = λ w. k.now-after w.rest;
    clock-now = λ w. k.clock-now w.rest;
    clock-wait = λ n w. k.clock-wait n w.rest;
  }

  -- What the gateway responds for the bag after the requests, which come to an end.
  abbrev pub WithheldAfter :
      List CachedRequest
      → CachedState (WiredWorld o fault h c)
      → ℕ
      → ℕ
      → Request
      → Bytes
      → Bytes
      → Type 0
  WithheldAfter requests s t_get t_set req bag_id raw =
      (s' : CachedState (WiredWorld o fault h c)) × (serve_all (wire o fault h c) requests s
        ≡ some s')
      × Withheld to_upper execute (get_path (cached_site t_get t_set) req bag_id raw s')
      × Withheld to_upper execute (get_bag (cached_site t_get t_set) req bag_id s')

  -- From the database to the response: once `UpdateBanStatus` has stored a list that bans a bag, at a
  -- time by which every listing of the cache was stored, then any further requests for any bags come
  -- to an end, and after them, later than one time to live of the cache, the gateway responds to a
  -- request for the bag, with its ID in any case of letters and any path, with an error or with the
  -- loading page. The bag IDs are in lower case and without a colon, the update names no bag twice,
  -- the cache of the repository says only what the tables say, and the clock does not run backwards.
  pub get_path-Withheld :
      (now : ℕ → ℕ) (l : List DbBanStatus) (t0 t_get t_set : ℕ) (bag_id raw : Bytes) (req : Request)
      (requests : List CachedRequest) (s : CachedState (WiredWorld o fault h c))
      → IsClocked o
      → SqlCoherent o fault h c s.inner.world.files
      → IsPlainId o fault h c (to_lower bag_id)
      → All (λ x. IsLower x.bag_id) l
      → IsMap (status_entries l)
      → lookup (to_lower bag_id) (status_entries l) ≡ some true
      → (update_ban_status (new_repository fault) now l s.inner.world.files).0 ≡ none
      → IsStoredBy t0 s.cache
      → All (λ q. IsPlainId o fault h c q.bag_id) requests
      → t0 + s.cache.ttl < t_get
      → WithheldAfter requests (cached_after_bans o fault h c now l s) t_get t_set req bag_id raw
  unfolding get_path get_bag
  get_path-Withheld now l t0 t_get t_set bag_id raw req requests s k coherent id lows single in_list
        done stored ids late =
      let (s', came) =
        serve_all_returns (wire o fault h c) (wire-IsClocked k) requests
          (cached_after_bans o fault h c now l s) in
      let refused = λ (path : Bytes).
        ban-Ended o fault h c now l t0 t_get t_set (to_lower bag_id) path requests s s' coherent id
          lows single in_list done stored ids came late in
      (
        s',
        came,
        decoded t_get t_set req bag_id s' (query_unescape raw) refused,
        response-Withheld t_get t_set req (to_lower bag_id) [] s' refused,
      )
