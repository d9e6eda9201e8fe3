-- ===== src/Journey/Telemetry.antt =====
-- journey/executor.go: what an execution sends to the synthesizer. Free-form attributes of log events
-- and custom metrics are left out.
use xk6_otel_gen.Prelude.{
  String, Bool, true, false, not, ◌&&◌, Option, none, some, List, [], ◌∷◌, ◌++◌, is_empty,
  if◌then◌else◌,
}
use Prim.Native.String.{◌++◌ as ◌++ₛ◌}
use xk6_otel_gen.Prelude.Int.{ℤ, ◌-ℤ◌}
use xk6_otel_gen.Topology.Enums.{MetricType, LogCondition, LogSeverity}
use xk6_otel_gen.Topology.Float.{Float64}
use xk6_otel_gen.Topology.Types.{
  Duration, ServiceRef, EdgeRef, StackSample, ProfileSpec, MetricSpec, MetricFaultLink,
  MetricStateUpdateSpec, LogEventSpec,
}
use xk6_otel_gen.Journey.Plan.{NodeInfo}
use xk6_otel_gen.Journey.Outcome.{Outcome}
use xk6_otel_gen.Journey.Fault.Fold.{FoldedFault, fault_active_for_kind}

-- time.Time: nanoseconds from some origin.
abbrev pub Instant : Type 0
Instant = ℤ

-- The inputs of the synthesizer.
pub record SpanInput : Type 0 where
  pub service : Option ServiceRef
  pub edge : Option EdgeRef
  pub operation : String
  pub start_time : Instant
  pub instance_idx : ℤ
  -- Whether the span links to the one begun last before it.
  pub linked : Bool

pub record SynthOutcome : Type 0 where
  pub success : Bool
  pub status_code : ℤ
  pub error_type : String
  pub end_time : Instant
  pub cascaded : Bool

pub record MetricInput : Type 0 where
  pub service : Option ServiceRef
  pub edge : Option EdgeRef
  pub operation : String
  pub latency : Duration
  pub outcome : SynthOutcome
  pub instance_idx : ℤ

pub record LogInput : Type 0 where
  pub service : Option ServiceRef
  pub severity : LogSeverity
  pub event_name : String
  pub body : String
  pub timestamp : Instant
  pub instance_idx : ℤ

pub record CustomMetricInput (F : Type 0) : Type 0 where
  pub service : Option ServiceRef
  pub operation : String
  pub instance_idx : ℤ
  pub name : String
  pub type : MetricType
  pub unit : String
  pub value : F

pub record StateUpdateInput (F : Type 0) : Type 0 where
  pub service : Option ServiceRef
  pub operation : String
  pub instance_idx : ℤ
  pub key : String
  pub delta : F

pub record ProfileInput (F : Type 0) : Type 0 where
  pub service : Option ServiceRef
  pub operation : String
  pub instance_idx : ℤ
  pub sample_rate : ℤ
  pub stacks : List (StackSample F)
  pub start_time : Instant
  pub end_time : Instant

-- The calls of the synthesizer and of a span, in their order. `finish_span` ends the span begun last
-- that is still open.
pub data Event (F : Type 0) : Type 0 where
  begin_span : SpanInput → Event F
  set_profile_id : Event F
  finish_span : SynthOutcome → Event F
  record_metric : MetricInput → Event F
  emit_log : LogInput → Event F
  record_custom : CustomMetricInput F → Event F
  update_state : StateUpdateInput F → Event F
  emit_profile : ProfileInput F → Event F

abbrev pub to_synth_outcome : Outcome → Instant → SynthOutcome
to_synth_outcome o end_ = record {
  success = o.success;
  status_code = o.status_code;
  error_type = o.error_type;
  end_time = end_;
  cascaded = o.cascaded;
}

abbrev pub log_severity : Outcome → LogSeverity
log_severity o = if o.success then LogSeverity.info else LogSeverity.error

abbrev pub outcome_label : Outcome → String
outcome_label o = if o.success then "success" else "failure"

abbrev pub log_event_matches : LogCondition → Bool → Bool
log_event_matches LogCondition.always success = true
log_event_matches LogCondition.on_success success = success
log_event_matches LogCondition.on_error success = not success
log_event_matches (LogCondition.other k) success = false

abbrev pub to_log_severity : LogSeverity → LogSeverity
to_log_severity (LogSeverity.other k) = LogSeverity.info
to_log_severity severity = severity

module _ (fl : Float64) where
  open fl use {F, add_f}

  -- A value and what an active fault makes of it.
  abbrev pub under_fault : FoldedFault F → F → Option (MetricFaultLink F) → F
  under_fault ff value none = value
  under_fault ff value (some link) =
      if fault_active_for_kind fl ff link.kind
      then (if link.has_value then link.value else add_f value link.delta)
      else value

  module _ (info : NodeInfo F) (instance_idx : ℤ) (o : Outcome) (end_ : Instant)
      (ff : FoldedFault F) where
    unfoldable pub log_events : List LogEventSpec → List (Event F)
    log_events [] = []
    log_events (ev ∷ evs) =
        let rest = log_events evs in
        if log_event_matches ev.condition o.success
        then emit_log (record {
          service = info.service;
          severity = to_log_severity ev.severity;
          event_name = ev.name;
          body = ev.body;
          timestamp = end_;
          instance_idx = instance_idx;
        })
          ∷ rest
        else rest

    unfoldable pub metric_events : List (MetricSpec F) → List (Event F)
    metric_events [] = []
    metric_events (m ∷ ms) =
        let rest = metric_events ms in
        if log_event_matches m.condition o.success
        then record_custom (record {
          service = info.service;
          operation = info.operation;
          instance_idx = instance_idx;
          name = m.name;
          type = m.type;
          unit = m.unit;
          value = under_fault ff m.baseline m.when_fault;
        })
          ∷ rest
        else rest

    unfoldable pub state_events : List (MetricStateUpdateSpec F) → List (Event F)
    state_events [] = []
    state_events (u ∷ us) =
        let rest = state_events us in
        if log_event_matches u.condition o.success
        then update_state (record {
          service = info.service;
          operation = info.operation;
          instance_idx = instance_idx;
          key = u.key;
          delta = under_fault ff u.delta u.when_fault;
        })
          ∷ rest
        else rest

    abbrev pub finish_event : Event F
    finish_event = finish_span (to_synth_outcome o end_)

    abbrev pub metric_event : Event F
    metric_event = record_metric (record {
      service = info.service;
      edge = info.edge;
      operation = info.operation;
      latency = o.latency;
      outcome = to_synth_outcome o end_;
      instance_idx = instance_idx;
    })

    abbrev pub log_event : Event F
    log_event = emit_log (record {
      service = info.service;
      severity = log_severity o;
      event_name = "";
      body = info.operation ++ₛ (" " ++ₛ outcome_label o);
      timestamp = end_;
      instance_idx = instance_idx;
    })

    -- if node.Service != nil
    unfoldable pub declared_events : Option ServiceRef → List (Event F)
    unfolding log_events metric_events state_events
    declared_events none = []
    declared_events (some svc) =
        log_events info.log_events
        ++ (metric_events info.metrics ++ state_events info.state_updates)

    -- The stacks of a profile: those of the incident while its fault is active.
    abbrev pub profile_stacks : ProfileSpec F → List (StackSample F)
    profile_stacks p = elim p.when_fault [
      | none ↦ p.baseline
      | some kind ↦
          if fault_active_for_kind fl ff kind && not (is_empty p.incident)
          then p.incident
          else p.baseline
    ]

    -- The calls of finishAndEmitAt, with the profile whose span context is valid, if any.
    unfoldable pub finish_events : Option (ProfileSpec F) → List (Event F)
    unfolding declared_events
    finish_events none = finish_event ∷ metric_event ∷ log_event ∷ declared_events info.service
    finish_events (some p) =
        set_profile_id
        ∷ finish_event
        ∷ metric_event
        ∷ log_event
        ∷ (declared_events info.service
            ++ emit_profile (record {
              service = info.service;
              operation = info.operation;
              instance_idx = instance_idx;
              sample_rate = p.sample_rate;
              stacks = profile_stacks p;
              start_time = end_ -ℤ o.latency;
              end_time = end_;
            })
              ∷ [])
