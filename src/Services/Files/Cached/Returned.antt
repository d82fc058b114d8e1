-- ===== src/Services/Files/Cached/Returned.antt =====
-- Requests through the cache of listings, pkg/services/files/cache.go, come to an end.
use mytonstorage_gateway.Common.{
  List, Option-cases, [], arith, inl, inr, none, refl, some, ℕ, ◌∷◌, ◌≡◌, ◌≢◌,
}
use mytonstorage_gateway.Services.Files.Cached.{
  CachedRequest, CachedState, ask_service, get_path_info_cached, serve_all,
}
use mytonstorage_gateway.Services.Files.Ensure.{Outside}
use mytonstorage_gateway.Services.Files.Service.Clock.{IsClocked, get_path_info-Returns}
use mytonstorage_gateway.Text.{Bytes}

module _ (o : Outside) (k : IsClocked o) where
  cached_returns :
      (t_get t_set : ℕ) (bag_id path : Bytes) (s : CachedState o.World)
      → get_path_info_cached o t_get t_set bag_id path s ≢ none
  unfolding get_path_info_cached ask_service
  cached_returns t_get t_set bag_id path s =
      ground (arith, get_path_info-Returns o k bag_id path s.inner)

  -- With a clock that does not run backwards, any number of requests gets its replies.
  pub serve_all_returns :
      (requests : List CachedRequest) (s : CachedState o.World)
      → (s' : CachedState o.World) × (serve_all o requests s ≡ some s')
  unfolding serve_all
  serve_all_returns [] s = (s, refl)
  serve_all_returns (q ∷ requests) s =
      elim (Option-cases (get_path_info_cached o q.t_get q.t_set q.bag_id q.path s)) [
        | inl missing ↦ absurd (cached_returns q.t_get q.t_set q.bag_id q.path s missing)
        | inr ((reply, t), came) ↦ rw (serve_all, came) (serve_all_returns requests t)
      ]
