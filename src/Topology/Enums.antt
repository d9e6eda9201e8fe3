-- ===== src/Topology/Enums.antt =====
-- topology/enums.go: the enumerations, with `other` for the integers that name no constant.
use xk6_otel_gen.Prelude.Int.{ℤ, pos}

pub data ServiceKind : Type 0 where
  application database external_api cache queue : ServiceKind
  other : ℤ → ServiceKind

pub data Protocol : Type 0 where
  http grpc messaging : Protocol
  other : ℤ → Protocol

pub data ExhaustedAction : Type 0 where
  propagate return_default succeed_silently : ExhaustedAction
  other : ℤ → ExhaustedAction

pub data FaultKind : Type 0 where
  latency_inflation error_rate_override disconnect crash : FaultKind
  other : ℤ → FaultKind

pub data TargetKind : Type 0 where
  node operation edge : TargetKind
  other : ℤ → TargetKind

pub data BackoffPolicy : Type 0 where
  exponential linear constant : BackoffPolicy
  other : ℤ → BackoffPolicy

pub data MetricType : Type 0 where
  counter gauge histogram observable_gauge observable_counter : MetricType
  other : ℤ → MetricType

pub data LogCondition : Type 0 where
  always on_success on_error : LogCondition
  other : ℤ → LogCondition

pub data LogSeverity : Type 0 where
  trace debug info warn error fatal : LogSeverity
  other : ℤ → LogSeverity

-- The integers behind the constants.
abbrev pub service_kind_code : ServiceKind → ℤ
service_kind_code ServiceKind.application = pos 0
service_kind_code ServiceKind.database = pos 1
service_kind_code ServiceKind.external_api = pos 2
service_kind_code ServiceKind.cache = pos 3
service_kind_code ServiceKind.queue = pos 4
service_kind_code (ServiceKind.other k) = k

abbrev pub protocol_code : Protocol → ℤ
protocol_code Protocol.http = pos 0
protocol_code Protocol.grpc = pos 1
protocol_code Protocol.messaging = pos 2
protocol_code (Protocol.other k) = k

abbrev pub exhausted_action_code : ExhaustedAction → ℤ
exhausted_action_code ExhaustedAction.propagate = pos 0
exhausted_action_code ExhaustedAction.return_default = pos 1
exhausted_action_code ExhaustedAction.succeed_silently = pos 2
exhausted_action_code (ExhaustedAction.other k) = k

abbrev pub fault_kind_code : FaultKind → ℤ
fault_kind_code FaultKind.latency_inflation = pos 0
fault_kind_code FaultKind.error_rate_override = pos 1
fault_kind_code FaultKind.disconnect = pos 2
fault_kind_code FaultKind.crash = pos 3
fault_kind_code (FaultKind.other k) = k

abbrev pub target_kind_code : TargetKind → ℤ
target_kind_code TargetKind.node = pos 0
target_kind_code TargetKind.operation = pos 1
target_kind_code TargetKind.edge = pos 2
target_kind_code (TargetKind.other k) = k

abbrev pub backoff_code : BackoffPolicy → ℤ
backoff_code BackoffPolicy.exponential = pos 0
backoff_code BackoffPolicy.linear = pos 1
backoff_code BackoffPolicy.constant = pos 2
backoff_code (BackoffPolicy.other k) = k

abbrev pub metric_type_code : MetricType → ℤ
metric_type_code MetricType.counter = pos 0
metric_type_code MetricType.gauge = pos 1
metric_type_code MetricType.histogram = pos 2
metric_type_code MetricType.observable_gauge = pos 3
metric_type_code MetricType.observable_counter = pos 4
metric_type_code (MetricType.other k) = k

abbrev pub log_condition_code : LogCondition → ℤ
log_condition_code LogCondition.always = pos 0
log_condition_code LogCondition.on_success = pos 1
log_condition_code LogCondition.on_error = pos 2
log_condition_code (LogCondition.other k) = k

abbrev pub log_severity_code : LogSeverity → ℤ
log_severity_code LogSeverity.trace = pos 0
log_severity_code LogSeverity.debug = pos 1
log_severity_code LogSeverity.info = pos 2
log_severity_code LogSeverity.warn = pos 3
log_severity_code LogSeverity.error = pos 4
log_severity_code LogSeverity.fatal = pos 5
log_severity_code (LogSeverity.other k) = k
