-- ===== src/Metrics.antt =====
-- The registry of src/metrics.rs as the list of updates made to it, the latest first. The value of
-- a duration is not kept: it is read from the wall clock and nothing depends on it.
use load_ants.Prelude.{ℕ, List, ◌∷◌}
use load_ants.Prelude.Texts.{Text}

pub data Counter : Type 0 where
  dns_requests_total dns_request_errors_total http_requests_total : Counter
  http_request_errors_total cache_operations_total dns_query_type_total : Counter
  dns_response_codes_total upstream_requests_total upstream_errors_total : Counter
  route_matches_total : Counter

pub data Gauge : Type 0 where
  cache_entries cache_capacity route_rules_count : Gauge

pub data Histogram : Type 0 where
  dns_request_duration_seconds http_request_duration_seconds : Histogram
  cache_ttl_seconds upstream_duration_seconds : Histogram

-- `inc`, `set` and `observe` under label values; `timed` observes a duration.
pub data Event : Type 0 where
  inc : Counter → List Text → Event
  set : Gauge → List Text → ℕ → Event
  observe : Histogram → List Text → ℕ → Event
  timed : Histogram → List Text → Event

abbrev pub Metrics : Type 0
Metrics = List Event

infixl 20 ◌▸◌
abbrev pub ◌▸◌ : Metrics → Event → Metrics
m ▸ e = e ∷ m
