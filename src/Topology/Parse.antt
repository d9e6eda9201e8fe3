-- ===== src/Topology/Parse.antt =====
-- topology/parse.go: the parts of a raw topology that refer to nothing.
pub mod Store
pub mod Lookup
pub mod Calls
pub mod Variants
pub mod Steps
pub mod Targets
pub mod Schema
pub mod Whole
pub mod Accepted
use xk6_otel_gen.Prelude.{String, Bool, true, false, Option, none, some, List, [], ◌∷◌, map}
use xk6_otel_gen.Prelude.Int.{ℤ, pos}
use xk6_otel_gen.Prelude.Text.{string_default}
use xk6_otel_gen.Topology.Enums.{FaultKind}
use xk6_otel_gen.Topology.Float.{Float64}
use xk6_otel_gen.Topology.Types.{
  Duration, StackSample, ProfileSpec, MetricFaultLink, MetricSpec, MetricSourceSpec,
  ObservableMetricSpec, MetricStateUpdateSpec, LogEventSpec, LatencyDist, SeverityParams,
  FaultSchedulePoint,
}
use xk6_otel_gen.Topology.Raw.{
  RawStack, RawProfile, RawMetricFaultLink, RawMetricSource, RawMetric, RawStateUpdate, RawLogEvent,
  RawLatencyDist, RawSeverity, RawFaultSchedule,
}
use xk6_otel_gen.Topology.Tokens.{
  parse_fault_kind, parse_log_condition, parse_log_severity, parse_metric_type,
}

-- intDefault, float64Default, durationDefault
abbrev pub or_default {ℓ} : {A : Type ℓ} → Option A → A → A
or_default none def = def
or_default (some a) def = a

-- A loop that skips nil pointers.
unfoldable pub resolve_each {ℓ κ} : {A : Type ℓ} {B : Type κ} → (A → B) → List (Option A) → List B
resolve_each f [] = []
resolve_each f (none ∷ xs) = resolve_each f xs
resolve_each f (some a ∷ xs) = f a ∷ resolve_each f xs

abbrev constant_latency : LatencyDist
constant_latency = record { distribution = "constant"; p50 = pos 0; p95 = pos 0 }

unfoldable pub resolve_latency : Option RawLatencyDist → LatencyDist
resolve_latency none = constant_latency
resolve_latency (some rl) = record {
  distribution = string_default rl.distribution "constant";
  p50 = or_default rl.p50 (pos 0);
  p95 = or_default rl.p95 (or_default rl.p50 (pos 0));
}

unfoldable pub resolve_log_event : RawLogEvent → LogEventSpec
resolve_log_event raw = record {
  name = raw.name;
  severity = parse_log_severity raw.severity;
  condition = parse_log_condition raw.condition;
  body = raw.body;
  attributes = raw.attributes;
}

unfoldable pub resolve_log_events : List (Option RawLogEvent) → List LogEventSpec
unfolding resolve_each resolve_log_event
resolve_log_events raws = resolve_each resolve_log_event raws

abbrev resolve_source : Option RawMetricSource → Option MetricSourceSpec
resolve_source none = none
resolve_source (some raw) = some record { accumulator = raw.accumulator; minus = raw.minus }

abbrev pub is_set {ℓ} : {A : Type ℓ} → Option A → Bool
is_set none = false
is_set (some a) = true

module _ (fl : Float64) where
  open fl use {F, zero_f, one_f}

  unfoldable pub resolve_severity : Option (RawSeverity F) → SeverityParams F
  resolve_severity none = record {
    probability = zero_f;
    multiplier = zero_f;
    add = pos 0;
    value = zero_f;
  }
  resolve_severity (some rs) = record {
    probability = or_default rs.probability zero_f;
    multiplier = or_default rs.multiplier zero_f;
    add = or_default rs.add (pos 0);
    value = or_default rs.value zero_f;
  }

  abbrev pub resolve_point : Option (RawFaultSchedule F) → FaultSchedulePoint F
  resolve_point none = record { at = pos 0; intensity = one_f }
  resolve_point (some point) = record {
    at = or_default point.at (pos 0);
    intensity = or_default point.intensity one_f;
  }

  unfoldable pub resolve_fault_schedule :
      List (Option (RawFaultSchedule F)) → List (FaultSchedulePoint F)
  resolve_fault_schedule raws = map resolve_point raws

  abbrev resolve_stack : RawStack F → StackSample F
  resolve_stack raw = record { frames = raw.frames; weight = raw.weight }

  unfoldable pub resolve_stacks : List (Option (RawStack F)) → List (StackSample F)
  unfolding resolve_each
  resolve_stacks raws = resolve_each resolve_stack raws

  abbrev resolve_profile_fault : Option String → Option FaultKind
  resolve_profile_fault none = none
  resolve_profile_fault (some kind) = some (parse_fault_kind kind)

  unfoldable pub resolve_profile : Option (RawProfile F) → Option (ProfileSpec F)
  unfolding resolve_stacks
  resolve_profile none = none
  resolve_profile (some raw) = some record {
    enabled = raw.enabled;
    sample_rate = or_default raw.sample_rate (pos 100);
    baseline = resolve_stacks raw.baseline;
    incident = resolve_stacks raw.incident;
    when_fault = resolve_profile_fault raw.when_fault;
  }

  unfoldable pub resolve_metric_fault_link :
      Option (RawMetricFaultLink F) → Option (MetricFaultLink F)
  resolve_metric_fault_link none = none
  resolve_metric_fault_link (some raw) = some record {
    kind = parse_fault_kind raw.kind;
    delta = or_default raw.delta zero_f;
    value = or_default raw.value zero_f;
    has_value = is_set raw.value;
  }

  -- The body of the loop of resolveMetrics.
  unfoldable pub resolve_metric : RawMetric F → MetricSpec F
  unfolding resolve_metric_fault_link
  resolve_metric raw = record {
    name = raw.name;
    type = parse_metric_type raw.type;
    unit = raw.unit;
    baseline = or_default raw.baseline zero_f;
    condition = parse_log_condition raw.condition;
    attributes = raw.attributes;
    when_fault = resolve_metric_fault_link raw.when_fault;
  }

  unfoldable pub resolve_metrics : List (Option (RawMetric F)) → List (MetricSpec F)
  unfolding resolve_each resolve_metric
  resolve_metrics raws = resolve_each resolve_metric raws

  unfoldable pub resolve_observable_metric : RawMetric F → ObservableMetricSpec F
  unfolding resolve_metric_fault_link
  resolve_observable_metric raw = record {
    name = raw.name;
    type = parse_metric_type raw.type;
    unit = raw.unit;
    baseline = or_default raw.baseline zero_f;
    attributes = raw.attributes;
    when_fault = resolve_metric_fault_link raw.when_fault;
    source = resolve_source raw.source;
  }

  unfoldable pub resolve_observable_metrics :
      List (Option (RawMetric F)) → List (ObservableMetricSpec F)
  unfolding resolve_each resolve_observable_metric
  resolve_observable_metrics raws = resolve_each resolve_observable_metric raws

  unfoldable pub resolve_state_update : RawStateUpdate F → MetricStateUpdateSpec F
  unfolding resolve_metric_fault_link
  resolve_state_update raw = record {
    key = raw.key;
    delta = or_default raw.delta zero_f;
    condition = parse_log_condition raw.condition;
    when_fault = resolve_metric_fault_link raw.when_fault;
  }

  unfoldable pub resolve_state_updates :
      List (Option (RawStateUpdate F)) → List (MetricStateUpdateSpec F)
  unfolding resolve_each resolve_state_update
  resolve_state_updates raws = resolve_each resolve_state_update raws
