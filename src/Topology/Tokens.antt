-- ===== src/Topology/Tokens.antt =====
-- topology/enums.go (String) and topology/parse.go: the enumerations in their YAML spelling, printed and
-- read. Reading gives the invalid value -1 for every other text.
use xk6_otel_gen.Prelude.{String, ◌||◌, if◌then◌else◌}
use xk6_otel_gen.Prelude.Int.{negsuc}
use xk6_otel_gen.Prelude.Text.{reads_as}
use xk6_otel_gen.Topology.Enums.{
  ServiceKind, Protocol, ExhaustedAction, FaultKind, BackoffPolicy, MetricType, LogCondition,
  LogSeverity,
}

-- ServiceKind.String
unfoldable pub service_kind_string : ServiceKind → String
service_kind_string ServiceKind.application = "application"
service_kind_string ServiceKind.database = "database"
service_kind_string ServiceKind.external_api = "external_api"
service_kind_string ServiceKind.cache = "cache"
service_kind_string ServiceKind.queue = "queue"
service_kind_string (ServiceKind.other k) = "unknown"

-- parseServiceKind
unfoldable pub parse_service_kind : String → ServiceKind
unfolding reads_as
parse_service_kind s =
    if reads_as "application" s
    then ServiceKind.application
    else if reads_as "database" s
    then ServiceKind.database
    else if reads_as "external_api" s
    then ServiceKind.external_api
    else if reads_as "cache" s
    then ServiceKind.cache
    else if reads_as "queue" s
    then ServiceKind.queue
    else ServiceKind.other (negsuc 0)

-- Protocol.String
unfoldable pub protocol_string : Protocol → String
protocol_string Protocol.http = "http"
protocol_string Protocol.grpc = "grpc"
protocol_string Protocol.messaging = "messaging"
protocol_string (Protocol.other k) = "unknown"

-- parseProtocol
unfoldable pub parse_protocol : String → Protocol
unfolding reads_as
parse_protocol s =
    if reads_as "http" s
    then Protocol.http
    else if reads_as "grpc" s
    then Protocol.grpc
    else if reads_as "messaging" s
    then Protocol.messaging
    else Protocol.other (negsuc 0)

-- BackoffPolicy.String
unfoldable pub backoff_string : BackoffPolicy → String
backoff_string BackoffPolicy.exponential = "exponential"
backoff_string BackoffPolicy.linear = "linear"
backoff_string BackoffPolicy.constant = "constant"
backoff_string (BackoffPolicy.other k) = "unknown"

-- parseBackoff
unfoldable pub parse_backoff : String → BackoffPolicy
unfolding reads_as
parse_backoff s =
    if reads_as "" s || reads_as "exponential" s
    then BackoffPolicy.exponential
    else if reads_as "linear" s
    then BackoffPolicy.linear
    else if reads_as "constant" s
    then BackoffPolicy.constant
    else BackoffPolicy.other (negsuc 0)

-- FaultKind.String
unfoldable pub fault_kind_string : FaultKind → String
fault_kind_string FaultKind.latency_inflation = "latency_inflation"
fault_kind_string FaultKind.error_rate_override = "error_rate_override"
fault_kind_string FaultKind.disconnect = "disconnect"
fault_kind_string FaultKind.crash = "crash"
fault_kind_string (FaultKind.other k) = "unknown"

-- parseFaultKind
unfoldable pub parse_fault_kind : String → FaultKind
unfolding reads_as
parse_fault_kind s =
    if reads_as "latency_inflation" s
    then FaultKind.latency_inflation
    else if reads_as "error_rate_override" s
    then FaultKind.error_rate_override
    else if reads_as "disconnect" s
    then FaultKind.disconnect
    else if reads_as "crash" s
    then FaultKind.crash
    else FaultKind.other (negsuc 0)

-- ExhaustedAction.String
unfoldable pub exhausted_action_string : ExhaustedAction → String
exhausted_action_string ExhaustedAction.propagate = "propagate"
exhausted_action_string ExhaustedAction.return_default = "return_default"
exhausted_action_string ExhaustedAction.succeed_silently = "succeed_silently"
exhausted_action_string (ExhaustedAction.other k) = "unknown"

-- parseExhaustedAction
unfoldable pub parse_exhausted_action : String → ExhaustedAction
unfolding reads_as
parse_exhausted_action s =
    if reads_as "" s || reads_as "propagate" s
    then ExhaustedAction.propagate
    else if reads_as "return_default" s
    then ExhaustedAction.return_default
    else if reads_as "succeed_silently" s
    then ExhaustedAction.succeed_silently
    else ExhaustedAction.other (negsuc 0)

-- LogCondition.String
unfoldable pub log_condition_string : LogCondition → String
log_condition_string LogCondition.always = "always"
log_condition_string LogCondition.on_success = "on_success"
log_condition_string LogCondition.on_error = "on_error"
log_condition_string (LogCondition.other k) = "unknown"

-- parseLogCondition
unfoldable pub parse_log_condition : String → LogCondition
unfolding reads_as
parse_log_condition s =
    if reads_as "" s || reads_as "always" s
    then LogCondition.always
    else if reads_as "on_success" s
    then LogCondition.on_success
    else if reads_as "on_error" s
    then LogCondition.on_error
    else LogCondition.other (negsuc 0)

-- MetricType.String
unfoldable pub metric_type_string : MetricType → String
metric_type_string MetricType.counter = "counter"
metric_type_string MetricType.gauge = "gauge"
metric_type_string MetricType.histogram = "histogram"
metric_type_string MetricType.observable_gauge = "observable_gauge"
metric_type_string MetricType.observable_counter = "observable_counter"
metric_type_string (MetricType.other k) = "unknown"

-- parseMetricType
unfoldable pub parse_metric_type : String → MetricType
unfolding reads_as
parse_metric_type s =
    if reads_as "counter" s
    then MetricType.counter
    else if reads_as "gauge" s
    then MetricType.gauge
    else if reads_as "histogram" s
    then MetricType.histogram
    else if reads_as "observable_gauge" s
    then MetricType.observable_gauge
    else if reads_as "observable_counter" s
    then MetricType.observable_counter
    else MetricType.other (negsuc 0)

-- LogSeverity.String
unfoldable pub log_severity_string : LogSeverity → String
log_severity_string LogSeverity.info = "info"
log_severity_string LogSeverity.trace = "trace"
log_severity_string LogSeverity.debug = "debug"
log_severity_string LogSeverity.warn = "warn"
log_severity_string LogSeverity.error = "error"
log_severity_string LogSeverity.fatal = "fatal"
log_severity_string (LogSeverity.other k) = "unknown"

-- parseLogSeverity
unfoldable pub parse_log_severity : String → LogSeverity
unfolding reads_as
parse_log_severity s =
    if reads_as "" s || reads_as "info" s
    then LogSeverity.info
    else if reads_as "trace" s
    then LogSeverity.trace
    else if reads_as "debug" s
    then LogSeverity.debug
    else if reads_as "warn" s || reads_as "warning" s
    then LogSeverity.warn
    else if reads_as "error" s
    then LogSeverity.error
    else if reads_as "fatal" s
    then LogSeverity.fatal
    else LogSeverity.other (negsuc 0)
