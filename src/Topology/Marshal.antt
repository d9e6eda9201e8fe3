-- ===== src/Topology/Marshal.antt =====
-- topology/marshal.go: the parts of a topology that refer to nothing, as they stand in YAML.
-- A map without entries does not, by the tags of topology/raw.go.
pub mod Tree
pub mod Tokens
pub mod Schema
pub mod Leaves
pub mod Targets
pub mod Severity
pub mod Faults
pub mod Steps
use xk6_otel_gen.Prelude.{
  String, Bool, not, ◌&&◌, ◌||◌, Option, none, some, List, map, str_eq, if◌then◌else◌,
}
use xk6_otel_gen.Prelude.Int.{ℤ, pos, eq_ℤ}
use xk6_otel_gen.Prelude.Text.{string_default}
use xk6_otel_gen.Topology.Enums.{FaultKind, LogSeverity, LogCondition}
use xk6_otel_gen.Topology.Float.{Float64}
use xk6_otel_gen.Topology.Attributes.{omit_empty}
use xk6_otel_gen.Topology.Types.{
  StackSample, ProfileSpec, MetricFaultLink, MetricSpec, MetricSourceSpec, ObservableMetricSpec,
  MetricStateUpdateSpec, LogEventSpec, LatencyDist, SeverityParams, FaultSchedulePoint,
}
use xk6_otel_gen.Topology.Raw.{
  RawStack, RawProfile, RawMetricFaultLink, RawMetricSource, RawMetric, RawStateUpdate, RawLogEvent,
  RawLatencyDist, RawSeverity, RawFaultSchedule,
}
use xk6_otel_gen.Topology.Tokens.{
  fault_kind_string, log_condition_string, log_severity_string, metric_type_string,
}

-- A pointer to the value, nil under the test.
abbrev pub unless {ℓ} : {A : Type ℓ} → Bool → A → Option A
unless omitted a = if omitted then none else some a

-- A loop that appends one pointer for each element.
abbrev pub marshal_each {ℓ κ} : {A : Type ℓ} {B : Type κ} → (A → B) → List A → List (Option B)
marshal_each f xs = map (λ x. some (f x)) xs

-- The text is left empty for the default.
unfoldable pub marshal_severity_text : LogSeverity → String
unfolding log_severity_string
marshal_severity_text LogSeverity.info = ""
marshal_severity_text severity = log_severity_string severity

unfoldable pub marshal_condition : LogCondition → String
unfolding log_condition_string
marshal_condition LogCondition.always = ""
marshal_condition condition = log_condition_string condition

unfoldable pub marshal_log_event : LogEventSpec → RawLogEvent
unfolding marshal_severity_text marshal_condition omit_empty
marshal_log_event ev = record {
  name = ev.name;
  severity = marshal_severity_text ev.severity;
  condition = marshal_condition ev.condition;
  body = ev.body;
  attributes = omit_empty ev.attributes;
}

unfoldable pub marshal_log_events : List LogEventSpec → List (Option RawLogEvent)
unfolding marshal_log_event
marshal_log_events events = marshal_each marshal_log_event events

-- The body of marshalLatency after the default of the distribution.
unfoldable pub marshal_latency_as : String → LatencyDist → Option RawLatencyDist
marshal_latency_as distribution latency =
    if str_eq distribution "constant" && (eq_ℤ latency.p50 (pos 0) && eq_ℤ latency.p95 (pos 0))
    then none
    else some record {
      distribution = if str_eq distribution "constant" then "" else distribution;
      p50 = unless (eq_ℤ latency.p50 (pos 0)) latency.p50;
      p95 = unless (eq_ℤ latency.p95 (pos 0) || eq_ℤ latency.p95 latency.p50) latency.p95;
    }

unfoldable pub marshal_latency : LatencyDist → Option RawLatencyDist
unfolding marshal_latency_as
marshal_latency latency =
    marshal_latency_as (string_default latency.distribution "constant") latency

abbrev marshal_source : Option MetricSourceSpec → Option RawMetricSource
marshal_source none = none
marshal_source (some spec) = some record { accumulator = spec.accumulator; minus = spec.minus }

module _ (fl : Float64) where
  open fl use {F, zero_f, eq_f}

  -- if v != 0 { raw = ptrFloat64(v) }
  abbrev pub unless_zero : F → Option F
  unless_zero v = unless (eq_f v zero_f) v

  -- severity == (SeverityParams{})
  abbrev pub is_zero_severity : SeverityParams F → Bool
  is_zero_severity sev =
      eq_f sev.probability zero_f
      && (eq_f sev.multiplier zero_f && (eq_ℤ sev.add (pos 0) && eq_f sev.value zero_f))

  unfoldable pub marshal_severity : SeverityParams F → Option (RawSeverity F)
  marshal_severity sev =
      if is_zero_severity sev
      then none
      else some record {
        probability = unless_zero sev.probability;
        multiplier = unless_zero sev.multiplier;
        add = unless (eq_ℤ sev.add (pos 0)) sev.add;
        value = unless_zero sev.value;
      }

  abbrev pub marshal_point : FaultSchedulePoint F → RawFaultSchedule F
  marshal_point point = record { at = some point.at; intensity = some point.intensity }

  unfoldable pub marshal_fault_schedule :
      List (FaultSchedulePoint F) → List (Option (RawFaultSchedule F))
  marshal_fault_schedule schedule = marshal_each marshal_point schedule

  abbrev pub marshal_stack : StackSample F → RawStack F
  marshal_stack stack = record { frames = stack.frames; weight = stack.weight }

  unfoldable pub marshal_stacks : List (StackSample F) → List (Option (RawStack F))
  marshal_stacks stacks = marshal_each marshal_stack stacks

  abbrev marshal_profile_fault : Option FaultKind → Option String
  unfolding fault_kind_string
  marshal_profile_fault none = none
  marshal_profile_fault (some kind) = some (fault_kind_string kind)

  unfoldable pub marshal_profile : Option (ProfileSpec F) → Option (RawProfile F)
  unfolding marshal_stacks fault_kind_string
  marshal_profile none = none
  marshal_profile (some spec) = some record {
    enabled = spec.enabled;
    sample_rate =
        unless (eq_ℤ spec.sample_rate (pos 0) || eq_ℤ spec.sample_rate (pos 100)) spec.sample_rate;
    baseline = marshal_stacks spec.baseline;
    incident = marshal_stacks spec.incident;
    when_fault = marshal_profile_fault spec.when_fault;
  }

  abbrev marshal_delta : MetricFaultLink F → Option F
  marshal_delta link = if link.has_value then none else unless_zero link.delta

  unfoldable pub marshal_metric_fault_link :
      Option (MetricFaultLink F) → Option (RawMetricFaultLink F)
  unfolding fault_kind_string
  marshal_metric_fault_link none = none
  marshal_metric_fault_link (some link) = some record {
    kind = fault_kind_string link.kind;
    delta = marshal_delta link;
    value = unless (not link.has_value) link.value;
  }

  -- The body of the loop of marshalMetrics.
  unfoldable pub marshal_metric : MetricSpec F → RawMetric F
  unfolding metric_type_string marshal_condition marshal_metric_fault_link omit_empty
  marshal_metric m = record {
    name = m.name;
    type = metric_type_string m.type;
    unit = m.unit;
    baseline = unless_zero m.baseline;
    condition = marshal_condition m.condition;
    attributes = omit_empty m.attributes;
    when_fault = marshal_metric_fault_link m.when_fault;
    source = none;
  }

  unfoldable pub marshal_metrics : List (MetricSpec F) → List (Option (RawMetric F))
  unfolding marshal_metric
  marshal_metrics metrics = marshal_each marshal_metric metrics

  unfoldable pub marshal_observable_metric : ObservableMetricSpec F → RawMetric F
  unfolding metric_type_string marshal_metric_fault_link omit_empty
  marshal_observable_metric m = record {
    name = m.name;
    type = metric_type_string m.type;
    unit = m.unit;
    baseline = unless_zero m.baseline;
    condition = "";
    attributes = omit_empty m.attributes;
    when_fault = marshal_metric_fault_link m.when_fault;
    source = marshal_source m.source;
  }

  unfoldable pub marshal_observable_metrics :
      List (ObservableMetricSpec F) → List (Option (RawMetric F))
  unfolding marshal_observable_metric
  marshal_observable_metrics metrics = marshal_each marshal_observable_metric metrics

  unfoldable pub marshal_state_update : MetricStateUpdateSpec F → RawStateUpdate F
  unfolding marshal_condition marshal_metric_fault_link
  marshal_state_update update = record {
    key = update.key;
    delta = unless_zero update.delta;
    condition = marshal_condition update.condition;
    when_fault = marshal_metric_fault_link update.when_fault;
  }

  unfoldable pub marshal_state_updates :
      List (MetricStateUpdateSpec F) → List (Option (RawStateUpdate F))
  unfolding marshal_state_update
  marshal_state_updates updates = marshal_each marshal_state_update updates
