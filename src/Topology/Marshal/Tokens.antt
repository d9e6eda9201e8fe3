-- ===== src/Topology/Marshal/Tokens.antt =====
-- The enumerations of topology/enums.go as topology/marshal.go writes them and topology/parse.go reads
-- them.
use xk6_otel_gen.Prelude.{◌≡◌, refl, true, arith}
use xk6_otel_gen.Topology.Enums.{
  ServiceKind, Protocol, ExhaustedAction, FaultKind, BackoffPolicy, MetricType, LogCondition,
  LogSeverity,
}
use xk6_otel_gen.Topology.Tokens.{
  service_kind_string, parse_service_kind, protocol_string, parse_protocol, backoff_string,
  parse_backoff, fault_kind_string, parse_fault_kind, exhausted_action_string,
  parse_exhausted_action, parse_log_condition, metric_type_string, parse_metric_type,
  parse_log_severity,
}
use xk6_otel_gen.Topology.Validate.Domain.{
  valid_service_kind, valid_protocol, valid_backoff, valid_fault_kind, valid_exhausted,
  valid_log_condition, valid_log_severity, valid_sync_metric_type, valid_observable_metric_type,
}
use xk6_otel_gen.Topology.Marshal.{marshal_severity_text, marshal_condition}
use xk6_otel_gen.Topology.Marshal.Tree.{backoff_text, exhausted_text}

pub parse_service_kind-service_kind_string :
    (k : ServiceKind) → valid_service_kind k ≡ true → parse_service_kind (service_kind_string k) ≡ k
unfolding parse_service_kind service_kind_string valid_service_kind
parse_service_kind-service_kind_string ServiceKind.application v = refl
parse_service_kind-service_kind_string ServiceKind.database v = refl
parse_service_kind-service_kind_string ServiceKind.external_api v = refl
parse_service_kind-service_kind_string ServiceKind.cache v = refl
parse_service_kind-service_kind_string ServiceKind.queue v = refl
parse_service_kind-service_kind_string (ServiceKind.other k) v = absurd (ground arith)

pub parse_protocol-protocol_string :
    (k : Protocol) → valid_protocol k ≡ true → parse_protocol (protocol_string k) ≡ k
unfolding parse_protocol protocol_string valid_protocol
parse_protocol-protocol_string Protocol.http v = refl
parse_protocol-protocol_string Protocol.grpc v = refl
parse_protocol-protocol_string Protocol.messaging v = refl
parse_protocol-protocol_string (Protocol.other k) v = absurd (ground arith)

pub parse_fault_kind-fault_kind_string :
    (k : FaultKind) → valid_fault_kind k ≡ true → parse_fault_kind (fault_kind_string k) ≡ k
unfolding parse_fault_kind fault_kind_string valid_fault_kind
parse_fault_kind-fault_kind_string FaultKind.latency_inflation v = refl
parse_fault_kind-fault_kind_string FaultKind.error_rate_override v = refl
parse_fault_kind-fault_kind_string FaultKind.disconnect v = refl
parse_fault_kind-fault_kind_string FaultKind.crash v = refl
parse_fault_kind-fault_kind_string (FaultKind.other k) v = absurd (ground arith)

pub parse_backoff-backoff_text :
    (k : BackoffPolicy) → valid_backoff k ≡ true → parse_backoff (backoff_text k) ≡ k
unfolding parse_backoff backoff_string valid_backoff
parse_backoff-backoff_text BackoffPolicy.exponential v = refl
parse_backoff-backoff_text BackoffPolicy.linear v = refl
parse_backoff-backoff_text BackoffPolicy.constant v = refl
parse_backoff-backoff_text (BackoffPolicy.other k) v = absurd (ground arith)

pub parse_exhausted_action-exhausted_text :
    (k : ExhaustedAction) → valid_exhausted k ≡ true → parse_exhausted_action (exhausted_text k) ≡ k
unfolding parse_exhausted_action exhausted_action_string valid_exhausted
parse_exhausted_action-exhausted_text ExhaustedAction.propagate v = refl
parse_exhausted_action-exhausted_text ExhaustedAction.return_default v = refl
parse_exhausted_action-exhausted_text ExhaustedAction.succeed_silently v = refl
parse_exhausted_action-exhausted_text (ExhaustedAction.other k) v = absurd (ground arith)

pub parse_log_condition-marshal_condition :
    (k : LogCondition)
    → valid_log_condition k ≡ true
    → parse_log_condition (marshal_condition k) ≡ k
unfolding parse_log_condition marshal_condition valid_log_condition
parse_log_condition-marshal_condition LogCondition.always v = refl
parse_log_condition-marshal_condition LogCondition.on_success v = refl
parse_log_condition-marshal_condition LogCondition.on_error v = refl
parse_log_condition-marshal_condition (LogCondition.other k) v = absurd (ground arith)

pub parse_log_severity-marshal_severity_text :
    (k : LogSeverity)
    → valid_log_severity k ≡ true
    → parse_log_severity (marshal_severity_text k) ≡ k
unfolding parse_log_severity marshal_severity_text valid_log_severity
parse_log_severity-marshal_severity_text LogSeverity.trace v = refl
parse_log_severity-marshal_severity_text LogSeverity.debug v = refl
parse_log_severity-marshal_severity_text LogSeverity.info v = refl
parse_log_severity-marshal_severity_text LogSeverity.warn v = refl
parse_log_severity-marshal_severity_text LogSeverity.error v = refl
parse_log_severity-marshal_severity_text LogSeverity.fatal v = refl
parse_log_severity-marshal_severity_text (LogSeverity.other k) v = absurd (ground arith)

pub parse_metric_type-sync :
    (k : MetricType)
    → valid_sync_metric_type k ≡ true
    → parse_metric_type (metric_type_string k) ≡ k
unfolding parse_metric_type metric_type_string valid_sync_metric_type
parse_metric_type-sync MetricType.counter v = refl
parse_metric_type-sync MetricType.gauge v = refl
parse_metric_type-sync MetricType.histogram v = refl
parse_metric_type-sync MetricType.observable_gauge v = absurd (ground arith)
parse_metric_type-sync MetricType.observable_counter v = absurd (ground arith)
parse_metric_type-sync (MetricType.other k) v = absurd (ground arith)

pub parse_metric_type-observable :
    (k : MetricType)
    → valid_observable_metric_type k ≡ true
    → parse_metric_type (metric_type_string k) ≡ k
unfolding parse_metric_type metric_type_string valid_observable_metric_type
parse_metric_type-observable MetricType.counter v = absurd (ground arith)
parse_metric_type-observable MetricType.gauge v = absurd (ground arith)
parse_metric_type-observable MetricType.histogram v = absurd (ground arith)
parse_metric_type-observable MetricType.observable_gauge v = refl
parse_metric_type-observable MetricType.observable_counter v = refl
parse_metric_type-observable (MetricType.other k) v = absurd (ground arith)
