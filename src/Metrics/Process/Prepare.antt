-- ===== src/Metrics/Process/Prepare.antt =====
-- The batch of all metrics of a push (exporter/signozclickhousemetrics/exporter.go: prepareBatch).
use mathlib.Core.Bool.{Bool}
use mathlib.Core.List.{List, [], ◌∷◌}
use mathlib.Core.Option.{none, some}
use otel_collector.Common.Dict.{lookup}
use otel_collector.Common.Int.{ℤ}
use otel_collector.Common.Texts.{Text, ascii, comparable_text}
use otel_collector.Metrics.{
  MetricData, empty, gauge, sum, histogram, exponential_histogram, summary, Metric, ScopeMetrics,
  ResourceMetrics, Platform,
}
use otel_collector.Metrics.Batch.{Batch, new_batch}
use otel_collector.Metrics.Fingerprint.{
  Fingerprint, resource_fingerprint, scope_fingerprint, initial_offset, new_fingerprint,
}
use otel_collector.Metrics.Process.{Source}
use otel_collector.Metrics.Process.Exponential.{process_exponential_histogram}
use otel_collector.Metrics.Process.Points.{
  process_gauge, process_sum, process_histogram, process_summary,
}

module _ {V F : Type 0} (p : Platform V F) (enable_exp_hist : Bool) (now : ℤ) where
  unfoldable pub process_points : Source → MetricData V F → Batch F → Batch F
  unfolding process_gauge process_sum process_histogram process_summary
      process_exponential_histogram
  process_points src empty b = b
  process_points src (gauge points) b = process_gauge p src points b
  process_points src (sum temporality is_monotonic points) b =
      process_sum p src temporality is_monotonic points b
  process_points src (histogram temporality points) b = process_histogram p src temporality points b
  process_points src (exponential_histogram temporality points) b =
      process_exponential_histogram p enable_exp_hist src temporality points b
  process_points src (summary points) b = process_summary p src points b

  abbrev pub source_of : Text → Fingerprint → Fingerprint → Metric V F → Source
  source_of env resource scope m = record {
    name = m.name;
    description = m.description;
    unit = m.unit;
    env = env;
    resource = resource;
    scope = scope;
    now = now;
  }

  unfoldable pub process_metrics :
      Text → Fingerprint → Fingerprint → List (Metric V F) → Batch F → Batch F
  unfolding process_points
  process_metrics env resource scope [] b = b
  process_metrics env resource scope (m ∷ ms) b =
      process_metrics env resource scope ms
        (process_points (source_of env resource scope m) m.points b)

  -- The fingerprint of a scope begins with the hash of its resource.
  unfoldable pub fingerprint_of_scope : Fingerprint → ScopeMetrics V F → Fingerprint
  unfolding new_fingerprint
  fingerprint_of_scope resource sm =
      new_fingerprint p scope_fingerprint resource.hash sm.scope_attributes (
        (ascii "__scope.name__", sm.scope_name)
        ∷ (ascii "__scope.version__", sm.scope_version)
        ∷ (ascii "__scope.schema_url__", sm.schema_url)
        ∷ [])

  unfoldable pub process_scopes : Text → Fingerprint → List (ScopeMetrics V F) → Batch F → Batch F
  unfolding process_metrics fingerprint_of_scope
  process_scopes env resource [] b = b
  process_scopes env resource (sm ∷ sms) b =
      process_scopes env resource sms
        (process_metrics env resource (fingerprint_of_scope resource sm) sm.metrics b)

  unfoldable pub env_of : List (Text × V) → Text
  env_of attributes = elim (lookup p.deployment_environment attributes) [
    | none ↦ []
    | some v ↦ p.as_string v
  ]

  unfoldable pub process_resources : List (ResourceMetrics V F) → Batch F → Batch F
  unfolding process_scopes new_fingerprint env_of
  process_resources [] b = b
  process_resources (rm ∷ rms) b =
      let resource =
        new_fingerprint p resource_fingerprint initial_offset rm.resource_attributes [] in
      process_resources rms
        (process_scopes (env_of rm.resource_attributes) resource rm.scope_metrics b)

  unfoldable pub prepare_batch : List (ResourceMetrics V F) → Batch F
  unfolding process_resources
  prepare_batch md = process_resources md (new_batch F)
