-- ===== src/Metrics.antt =====
-- The Prometheus collectors that the packages make and hand to `prometheus.MustRegister`. How a
-- collector is made and kept is the library's.
use mytonstorage_gateway.Common.{
  Bool, List, Option, [], all, any, ltb, map, not, true, ℕ, ◌&&◌, ◌∷◌,
}
use mytonstorage_gateway.Text.{Bytes, bytes_eq}

-- `NewCounter` and `NewCounterVec`, `NewGauge` and `NewGaugeVec`, `NewHistogramVec` with its buckets
-- in thousandths of a second, none of them for the library's own
pub data Shape : Type 0 where
  counter gauge : Shape
  histogram : List ℕ → Shape

-- The options and the label names that a collector is made with.
pub record Collector : Type 0 where
  pub namespace : Bytes
  pub subsystem : Bytes
  pub name : Bytes
  pub labels : List Bytes
  pub shape : Shape

abbrev pub collector : Bytes → Bytes → Bytes → List Bytes → Shape → Collector
collector namespace subsystem name labels shape = record {
  namespace = namespace;
  subsystem = subsystem;
  name = name;
  labels = labels;
  shape = shape;
}

-- The registry. A registration that panics is `none`; by its documentation it does so for a name
-- that the library does not accept and for one that is taken.
pub record Registry : Type 1 where
  pub Registered : Type 0
  pub must_register : List Collector → Registered → Option Registered

-- Each bucket is above the one before it.
unfoldable pub is_rising : List ℕ → Bool
is_rising [] = true
is_rising (a ∷ []) = true
is_rising (a ∷ b ∷ l) = ltb a b && is_rising (b ∷ l)

-- No text occurs twice.
unfoldable pub is_distinct : List Bytes → Bool
is_distinct [] = true
is_distinct (a ∷ l) = not (any (bytes_eq a) l) && is_distinct l

abbrev pub has_buckets : Shape → Bool
has_buckets counter = true
has_buckets gauge = true
has_buckets (histogram l) = is_rising l

-- The collectors of one call of `MustRegister` are of one namespace and subsystem, have different
-- names, different label names each, and buckets in order.
unfoldable pub is_group : Bytes → Bytes → List Collector → Bool
is_group namespace subsystem l =
    is_distinct (map (λ c. c.name) l)
    && all (λ c. bytes_eq c.namespace namespace && bytes_eq c.subsystem subsystem) l
    && all (λ c. is_distinct c.labels && has_buckets c.shape) l
