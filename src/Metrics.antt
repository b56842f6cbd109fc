-- ===== src/Metrics.antt =====
-- internal/metrics: the interface of a metrics backend and the client that tests and an unconfigured
-- operator use. The Prometheus client speaks HTTP and is a value of the interface.
use capacity_planning_operat.Prelude.{List, [], ◌++◌, Option, none, some, Bool, if◌then◌else◌}
use capacity_planning_operat.Prelude.Int.{ℤ}
use capacity_planning_operat.Prelude.Text.{Str, bytes}
use capacity_planning_operat.Prelude.Dict.{Dict, lookup}

-- The keys "namespace/name" of the program's maps.
abbrev pub key_of : Str → Str → Str
key_of namespace name = namespace ++ (bytes "/" ++ name)

pub record PvcKey : Type 0 where
  pub namespace : Str
  pub name : Str

pub record PvcUsage : Type 0 where
  pub used_bytes : ℤ
  pub capacity_bytes : ℤ

pub record RangePoint : Type 0 where
  pub timestamp : ℤ
  pub used_bytes : ℤ

-- `none` is an error. The answer of a backend is that of the moment at which the handler runs.
pub record PvcMetricsClient : Type 0 where
  pub get_usage : PvcKey → Option PvcUsage
  pub get_usage_range : PvcKey → ℤ → ℤ → ℤ → Option (List RangePoint)

pub record MockPvcMetricsClient : Type 0 where
  pub usages : Dict PvcUsage
  pub range_data : Dict (List RangePoint)
  pub failing : Bool

-- `MockPVCMetricsClient{}`.
abbrev pub empty_mock : MockPvcMetricsClient
empty_mock = record { usages = []; range_data = []; failing = Bool.false }

unfoldable pub mock_get_usage : MockPvcMetricsClient → PvcKey → Option PvcUsage
mock_get_usage m key = if m.failing then none else lookup (key_of key.namespace key.name) m.usages

-- A key without range data has none, which is no error.
unfoldable pub mock_get_usage_range :
    MockPvcMetricsClient → PvcKey → ℤ → ℤ → ℤ → Option (List RangePoint)
mock_get_usage_range m key start end step =
    let points : List RangePoint = elim (lookup (key_of key.namespace key.name) m.range_data) [
      | some ps ↦ ps
      | none ↦ []
    ] in
    if m.failing then none else some points

abbrev pub mock_client : MockPvcMetricsClient → PvcMetricsClient
mock_client m = record { get_usage = mock_get_usage m; get_usage_range = mock_get_usage_range m }
