-- ===== src/HttpServer/Metrics/Counted.antt =====
-- What the collectors of pkg/httpServer/metrics.go show while requests overlap.
use Prim.Native.Char.{code}
use mytonstorage_gateway.Common.{
  All, Bool, List, Option, [], arith, false, if◌then◌else◌, length, none, refl, some, suc, true, ℕ,
  ◌&&◌, ◌++◌, ◌+◌, ◌∷◌, ◌≡◌,
}
use mytonstorage_gateway.HttpServer.Metrics.{
  Arrived, HttpMetrics, Update, after_next, before_next, duration_observe, inflight_dec,
  inflight_inc, inflight_values, new_http_metrics, route_label, total_inc, values_with_code,
}
use mytonstorage_gateway.HttpServer.Routes.{route}
use mytonstorage_gateway.Text.{Bytes, bytes_eq, text}
use mytonstorage_gateway.Text.Decimal.{decimal}

abbrev pub values_eq : List Bytes → List Bytes → Bool
values_eq [] [] = true
values_eq [] (b ∷ l) = false
values_eq (a ∷ k) [] = false
values_eq (a ∷ k) (b ∷ l) = bytes_eq a b && values_eq k l

-- How often a test holds.
unfoldable pub tally {ℓ} : {A : Type ℓ} → (A → Bool) → List A → ℕ
tally p [] = 0
tally p (x ∷ xs) = let n = tally p xs in if p x then suc n else n

abbrev pub is_opening : List Bytes → Update → Bool
is_opening l (total_inc v) = false
is_opening l (duration_observe v) = false
is_opening l (inflight_inc v) = values_eq v l
is_opening l (inflight_dec v) = false

abbrev pub is_closing : List Bytes → Update → Bool
is_closing l (total_inc v) = false
is_closing l (duration_observe v) = false
is_closing l (inflight_inc v) = false
is_closing l (inflight_dec v) = values_eq v l

abbrev pub is_total : List Bytes → Update → Bool
is_total l (total_inc v) = values_eq v l
is_total l (duration_observe v) = false
is_total l (inflight_inc v) = false
is_total l (inflight_dec v) = false

abbrev pub is_duration : List Bytes → Update → Bool
is_duration l (total_inc v) = false
is_duration l (duration_observe v) = values_eq v l
is_duration l (inflight_inc v) = false
is_duration l (inflight_dec v) = false

-- The updates that requests make which arrive and leave in any order: what is logged, which requests
-- are inside, and which were answered with which status.
pub data Overlap : List Update → List Arrived → List (Arrived × ℕ) → Type 0 where
  idle : Overlap [] [] []
  arrive_next :
      (a : Arrived) (log : List Update) (inside : List Arrived) (replies : List (Arrived × ℕ))
      → Overlap log inside replies
      → Overlap (before_next a log) (a ∷ inside) replies
  leaves :
      (a : Arrived) (status : ℕ) (log : List Update) (early late : List Arrived)
      (replies : List (Arrived × ℕ))
      → Overlap log (early ++ a ∷ late) replies
      → Overlap (after_next a status log) (early ++ late) ((a, status) ∷ replies)

-- The route that is shown for a request: `ctx.Route()` may be missing or have no path.
abbrev pub shown_route : Option Bytes → Bytes
shown_route none = text "<unmatched>"
shown_route (some []) = text "<unmatched>"
shown_route (some (c ∷ path)) = c ∷ path

-- A request has a route and a method.
abbrev pub is_at : Bytes → Bytes → Arrived → Bool
is_at route method a = bytes_eq (shown_route a.route) route && bytes_eq a.method method

-- A request has a route and a method, and a status whose decimal digits are `code`.
abbrev pub is_answered : Bytes → Bytes → Bytes → Arrived × ℕ → Bool
is_answered route method code (a, status) = is_at route method a && bytes_eq (decimal status) code

-- The number of label values is that of the label names of the collector.
abbrev pub IsLabelled : HttpMetrics → Update → Type 0
IsLabelled m (total_inc v) = length v ≡ length m.total_requests.labels
IsLabelled m (duration_observe v) = length v ≡ length m.duration_sec.labels
IsLabelled m (inflight_inc v) = length v ≡ length m.inflight_request.labels
IsLabelled m (inflight_dec v) = length v ≡ length m.inflight_request.labels

tally-remove {ℓ} :
    {A : Type ℓ} (p : A → Bool) (xs ys : List A) (a : A)
    → tally p (xs ++ a ∷ ys) ≡ (if p a then suc (tally p (xs ++ ys)) else tally p (xs ++ ys))
unfolding tally
tally-remove p [] ys a = refl
tally-remove p (x ∷ xs) ys a = ground (arith, tally-remove p xs ys a)

route_label-shown_route : (r : Option Bytes) → route_label r ≡ shown_route r
unfolding route_label
route_label-shown_route none = refl
route_label-shown_route (some []) = refl
route_label-shown_route (some (c ∷ path)) = refl

inflight_values-is_at :
    (a : Arrived) (route method : Bytes)
    → values_eq (inflight_values a) (route ∷ method ∷ []) ≡ is_at route method a
inflight_values-is_at a route method = rw (route_label-shown_route a.route) (ground arith)

values_with_code-is_answered :
    (a : Arrived) (status : ℕ) (route method code : Bytes)
    → values_eq (values_with_code a status) (route ∷ method ∷ code ∷ [])
      ≡ is_answered route method code (a, status)
values_with_code-is_answered a status route method code =
    rw (route_label-shown_route a.route) (ground arith)

-- However requests overlap: the gauge shows, for each route and method, how many requests that the
-- middleware saw with them are inside; the counter and the histogram show, for each status in decimal
-- digits too, how many of them had a response with this status when `Next` returned; and no update has more or fewer
-- label values than its collector has label names, for which the library would panic. A request
-- without a route, or with an empty one, is shown as "<unmatched>".
pub Overlap-IsCounted :
    (log : List Update) (inside : List Arrived) (replies : List (Arrived × ℕ))
    (namespace subsystem route method code : Bytes)
    → Overlap log inside replies
    → (tally (is_opening (route ∷ method ∷ [])) log
        ≡ tally (is_closing (route ∷ method ∷ [])) log + tally (is_at route method) inside)
      × (tally (is_total (route ∷ method ∷ code ∷ [])) log
          ≡ tally (is_answered route method code) replies)
      × (tally (is_duration (route ∷ method ∷ code ∷ [])) log
          ≡ tally (is_answered route method code) replies)
      × All (IsLabelled (new_http_metrics namespace subsystem)) log
unfolding tally before_next after_next new_http_metrics
Overlap-IsCounted _ _ _ ns sub route method code idle = (refl, refl, refl, tt)
Overlap-IsCounted _ _ _ ns sub route method code (arrive_next a log inside replies h) =
    let (open_now, total, duration, labelled) =
      Overlap-IsCounted log inside replies ns sub route method code h in
    (rw (inflight_values-is_at a route method) (ground arith), total, duration, (refl, labelled))
Overlap-IsCounted _ _ _ ns sub route method code (leaves a status log early late replies h) =
    let (open_now, total, duration, labelled) =
      Overlap-IsCounted log (early ++ a ∷ late) replies ns sub route method code h in
    (
      rw (inflight_values-is_at a route method)
          (ground (arith, tally-remove (is_at route method) early late a)),
      rw (values_with_code-is_answered a status route method code) (ground arith),
      rw (values_with_code-is_answered a status route method code) (ground arith),
      (refl, (refl, (refl, labelled))),
    )
