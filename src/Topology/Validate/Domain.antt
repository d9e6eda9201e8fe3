-- ===== src/Topology/Validate/Domain.antt =====
-- The domain rules of topology/validate.go for one operation, edge or schedule.
use Prim.Native.String.{len}
use xk6_otel_gen.Prelude.{
  ℕ, suc, String, Bool, true, false, not, ◌&&◌, ◌||◌, Option, none, some, List, [], ◌∷◌, ◌++◌,
  str_eq, ltb, is_empty, if◌then◌else◌,
}
use xk6_otel_gen.Prelude.Int.{ℤ, pos, ltb_ℤ}
use xk6_otel_gen.Topology.Float.{Float64}
use xk6_otel_gen.Topology.Enums.{
  ServiceKind, Protocol, ExhaustedAction, FaultKind, BackoffPolicy, MetricType, LogCondition,
  LogSeverity,
}
use xk6_otel_gen.Topology.Types.{
  Operation, Edge, FaultSchedulePoint, StackSample, ProfileSpec, MetricFaultLink, MetricSpec,
  ObservableMetricSpec, MetricStateUpdateSpec, LogEventSpec, Duration,
}
use xk6_otel_gen.Topology.Errors.{FieldPath, ValidationError, one_error, ◌/ₖ◌, ◌/ᵢ◌}
use xk6_otel_gen.Topology.Graph.{collect_from}

-- if wrong { errs = append(errs, …) }
abbrev pub report : Bool → FieldPath → String → List ValidationError
report wrong path rule = if wrong then one_error path rule else []

abbrev pub negative : ℤ → Bool
negative z = ltb_ℤ z (pos 0)

unfoldable pub valid_service_kind : ServiceKind → Bool
valid_service_kind (ServiceKind.other n) = false
valid_service_kind _ = true

unfoldable pub valid_protocol : Protocol → Bool
valid_protocol (Protocol.other n) = false
valid_protocol _ = true

unfoldable pub valid_backoff : BackoffPolicy → Bool
valid_backoff (BackoffPolicy.other n) = false
valid_backoff _ = true

unfoldable pub valid_fault_kind : FaultKind → Bool
valid_fault_kind (FaultKind.other n) = false
valid_fault_kind _ = true

unfoldable pub valid_exhausted : ExhaustedAction → Bool
valid_exhausted (ExhaustedAction.other n) = false
valid_exhausted _ = true

unfoldable pub valid_log_condition : LogCondition → Bool
valid_log_condition (LogCondition.other n) = false
valid_log_condition _ = true

unfoldable pub valid_log_severity : LogSeverity → Bool
valid_log_severity (LogSeverity.other n) = false
valid_log_severity _ = true

unfoldable pub valid_sync_metric_type : MetricType → Bool
valid_sync_metric_type MetricType.counter = true
valid_sync_metric_type MetricType.gauge = true
valid_sync_metric_type MetricType.histogram = true
valid_sync_metric_type _ = false

unfoldable pub valid_observable_metric_type : MetricType → Bool
valid_observable_metric_type MetricType.observable_gauge = true
valid_observable_metric_type MetricType.observable_counter = true
valid_observable_metric_type _ = false

abbrev is_observable_gauge : MetricType → Bool
is_observable_gauge MetricType.observable_gauge = true
is_observable_gauge _ = false

abbrev pub is_latency_inflation : FaultKind → Bool
is_latency_inflation FaultKind.latency_inflation = true
is_latency_inflation _ = false

unfoldable pub valid_latency_distribution : String → Bool
valid_latency_distribution d =
    str_eq d "constant" || (str_eq d "lognormal" || (str_eq d "normal" || str_eq d "exponential"))

unfoldable pub check_name : String → FieldPath → String → List ValidationError
check_name name path rule =
    report (str_eq name "") (path /ₖ "name") rule
    ++ report (ltb 120 (len name)) (path /ₖ "name") rule

module _ (fl : Float64) where
  open fl use {F, zero_f, one_f, lt_f, le_f, is_nan, is_inf}

  unfoldable pub valid_probability : F → Bool
  valid_probability v = not (is_nan v) && (not (is_inf v) && (le_f zero_f v && le_f v one_f))

  unfoldable pub valid_float_metric_value : F → Bool
  valid_float_metric_value v = not (is_nan v) && not (is_inf v)

  unfoldable pub validate_stack_sample : FieldPath → StackSample F → List ValidationError
  validate_stack_sample path stack =
      report (is_empty stack.frames) (path /ₖ "frames") "D-PROFILE"
      ++ report (not (valid_float_metric_value stack.weight) || lt_f stack.weight zero_f)
          (path /ₖ "weight") "D-PROFILE"

  unfoldable pub validate_metric_fault_link :
      Option (MetricFaultLink F) → FieldPath → List ValidationError
  validate_metric_fault_link none path = []
  validate_metric_fault_link (some link) path =
      report (not (valid_fault_kind link.kind)) (path /ₖ "kind") "D-ENUM"
      ++ (report (not (valid_float_metric_value link.delta)) (path /ₖ "delta") "D-METRIC"
          ++ report (link.has_value && not (valid_float_metric_value link.value)) (path /ₖ "value")
              "D-METRIC")

  unfoldable pub validate_observable_metric_spec :
      FieldPath → ObservableMetricSpec F → List ValidationError
  validate_observable_metric_spec path m =
      check_name m.name path "D-METRIC"
      ++ (report (not (valid_observable_metric_type m.type)) (path /ₖ "type") "D-ENUM"
          ++ (report (not (valid_float_metric_value m.baseline)) (path /ₖ "baseline") "D-METRIC"
              ++ (validate_metric_fault_link m.when_fault (path /ₖ "when_fault") ++ source)))
    where
      source : List ValidationError
      source = elim m.source [
        | none ↦ []
        | some spec ↦
            report (str_eq spec.accumulator "") (path /ₖ "source" /ₖ "accumulator") "D-METRIC"
            ++ report (not (str_eq spec.minus "") && not (is_observable_gauge m.type))
                (path /ₖ "source" /ₖ "minus") "D-METRIC"
      ]

  unfoldable pub validate_log_event : FieldPath → LogEventSpec → List ValidationError
  validate_log_event path ev =
      check_name ev.name path "D-LOG"
      ++ (report (not (valid_log_severity ev.severity)) (path /ₖ "severity") "D-ENUM"
          ++ report (not (valid_log_condition ev.condition)) (path /ₖ "condition") "D-ENUM")

  unfoldable pub validate_metric : FieldPath → MetricSpec F → List ValidationError
  validate_metric path m =
      check_name m.name path "D-METRIC"
      ++ (report (not (valid_sync_metric_type m.type)) (path /ₖ "type") "D-ENUM"
          ++ (report (not (valid_log_condition m.condition)) (path /ₖ "condition") "D-ENUM"
              ++ (report (not (valid_float_metric_value m.baseline)) (path /ₖ "baseline") "D-METRIC"
                  ++ validate_metric_fault_link m.when_fault (path /ₖ "when_fault"))))

  unfoldable pub validate_state_update : FieldPath → MetricStateUpdateSpec F → List ValidationError
  validate_state_update path update =
      report (str_eq update.key "") (path /ₖ "key") "D-METRIC"
      ++ (report (not (valid_float_metric_value update.delta)) (path /ₖ "delta") "D-METRIC"
          ++ (report (not (valid_log_condition update.condition)) (path /ₖ "condition") "D-ENUM"
              ++ validate_metric_fault_link update.when_fault (path /ₖ "when_fault")))

  unfoldable pub validate_profile : FieldPath → Option (ProfileSpec F) → List ValidationError
  validate_profile path none = []
  validate_profile path (some p) =
      if p.enabled
      then (report (is_empty p.baseline) (path /ₖ "baseline") "D-PROFILE"
          ++ (report (not (ltb_ℤ (pos 0) p.sample_rate)) (path /ₖ "sample_rate") "D-PROFILE"
              ++ (collect_from 0 (λ i stack. validate_stack_sample (path /ₖ "baseline" /ᵢ i) stack)
                    p.baseline
                  ++ (collect_from 0
                        (λ i stack. validate_stack_sample (path /ₖ "incident" /ᵢ i) stack)
                        p.incident
                      ++ elim p.when_fault [
                        | none ↦ []
                        | some kind ↦
                            report (not (valid_fault_kind kind)) (path /ₖ "when_fault" /ₖ "kind")
                              "D-ENUM"
                            ++ report (is_empty p.incident) (path /ₖ "incident") "D-PROFILE"
                      ]))))
      else []

  unfoldable pub validate_operation_domain : FieldPath → Operation F → List ValidationError
  validate_operation_domain path op =
      check_name op.name path "D-OP"
      ++ (collect_from 0 (λ i ev. validate_log_event (path /ₖ "log_events" /ᵢ i) ev) op.log_events
          ++ (collect_from 0 (λ i m. validate_metric (path /ₖ "metrics" /ᵢ i) m) op.metrics
              ++ (collect_from 0 (λ i u. validate_state_update (path /ₖ "state_updates" /ᵢ i) u)
                    op.state_updates
                  ++ validate_profile (path /ₖ "profile") op.profile)))

  -- The loop over the schedule of a fault; `previous` is nil in the first round.
  unfoldable pub validate_fault_schedule :
      FieldPath → ℕ → Option Duration → List (FaultSchedulePoint F) → List ValidationError
  validate_fault_schedule path i previous [] = []
  validate_fault_schedule path i previous (point ∷ rest) =
      report (negative point.at) (path /ᵢ i /ₖ "at") "D-15"
      ++ (not_after point.at previous
          ++ (report
                (is_nan point.intensity || (is_inf point.intensity || lt_f point.intensity zero_f))
                (path /ᵢ i /ₖ "intensity") "D-15"
              ++ validate_fault_schedule path (suc i) (some point.at) rest))
    where
      not_after : Duration → Option Duration → List ValidationError
      not_after at none = []
      not_after at (some before) = report (not (ltb_ℤ before at)) (path /ᵢ i /ₖ "at") "D-15"

  unfoldable pub validate_edge_domain : FieldPath → Edge F → List ValidationError
  validate_edge_domain path edge =
      report (not (valid_protocol edge.protocol)) (path /ₖ "protocol") "D-ENUM"
      ++ (report (not (valid_probability edge.error_rate)) (path /ₖ "error_rate") "D-2"
          ++ (report (negative edge.timeout) (path /ₖ "timeout") "D-3"
              ++ (report (negative edge.retries) (path /ₖ "retries") "D-4"
                  ++ (report (negative edge.retry_base_delay) (path /ₖ "retry_base_delay") "D-4"
                      ++ (report (negative edge.latency.p50) (path /ₖ "latency" /ₖ "p50") "D-6"
                          ++ (report (ltb_ℤ edge.latency.p95 edge.latency.p50) (path /ₖ "latency")
                                "D-5"
                              ++ (report
                                    (not (valid_latency_distribution edge.latency.distribution))
                                    (path /ₖ "latency" /ₖ "distribution") "D-7"
                                  ++ (report (not (valid_backoff edge.retry_backoff))
                                        (path /ₖ "retry_backoff") "D-ENUM"
                                      ++ exhausted))))))))
    where
      exhausted : List ValidationError
      exhausted = elim edge.on_failure [
        | none ↦ []
        | some policy ↦
            report (not (valid_exhausted policy.on_exhausted))
              (path /ₖ "on_failure" /ₖ "on_exhausted") "D-ENUM"
      ]
