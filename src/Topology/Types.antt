-- ===== src/Topology/Types.antt =====
-- topology/types.go: the resolved topology. A pointer is a reference into a `Heap`, `none` is nil,
-- a map is a list of its entries in the order in which an iteration visits them, and `F` is Go's
-- float64. Free-form maps are of
-- Topology/Attributes.
use xk6_otel_gen.Prelude.{ℕ, String, Bool, Option, List}
use xk6_otel_gen.Prelude.Int.{ℤ, pos}
use xk6_otel_gen.Topology.Attributes.{Attributes}
use xk6_otel_gen.Topology.Enums.{
  ServiceKind, Protocol, ExhaustedAction, FaultKind, TargetKind, BackoffPolicy, MetricType,
  LogCondition, LogSeverity,
}

abbrev pub ServiceRef : Type 0
ServiceRef = ℕ

abbrev pub OperationRef : Type 0
OperationRef = ℕ

abbrev pub EdgeRef : Type 0
EdgeRef = ℕ

-- time.Duration: nanoseconds as an int64.
abbrev pub Duration : Type 0
Duration = ℤ

-- 100 * time.Millisecond
abbrev pub default_retry_base_delay : Duration
default_retry_base_delay = pos 100_000_000

pub record StackSample (F : Type 0) : Type 0 where
  pub frames : List String
  pub weight : F

pub record ProfileSpec (F : Type 0) : Type 0 where
  pub enabled : Bool
  pub sample_rate : ℤ
  pub baseline : List (StackSample F)
  pub incident : List (StackSample F)
  pub when_fault : Option FaultKind

pub record MetricFaultLink (F : Type 0) : Type 0 where
  pub kind : FaultKind
  pub delta : F
  pub value : F
  pub has_value : Bool

pub record MetricSpec (F : Type 0) : Type 0 where
  pub name : String
  pub type : MetricType
  pub unit : String
  pub baseline : F
  pub condition : LogCondition
  pub attributes : Attributes
  pub when_fault : Option (MetricFaultLink F)

pub record MetricSourceSpec : Type 0 where
  pub accumulator : String
  pub minus : String

pub record ObservableMetricSpec (F : Type 0) : Type 0 where
  pub name : String
  pub type : MetricType
  pub unit : String
  pub baseline : F
  pub attributes : Attributes
  pub when_fault : Option (MetricFaultLink F)
  pub source : Option MetricSourceSpec

pub record MetricStateUpdateSpec (F : Type 0) : Type 0 where
  pub key : String
  pub delta : F
  pub condition : LogCondition
  pub when_fault : Option (MetricFaultLink F)

pub record LogEventSpec : Type 0 where
  pub name : String
  pub severity : LogSeverity
  pub condition : LogCondition
  pub body : String
  pub attributes : Attributes

-- A list of pointers to call nodes; `null` is a nil pointer.
mutual
  pub data CallNode : Type 0 where
    null : CallNode
    call : (edge : Option EdgeRef) (parallel : CallNodes) → CallNode

  pub data CallNodes : Type 0 where
    end : CallNodes
    cons : CallNode → CallNodes → CallNodes

pub record LatencyDist : Type 0 where
  pub distribution : String
  pub p50 : Duration
  pub p95 : Duration

pub record RecoveryPolicy : Type 0 where
  pub fallback : List (Option EdgeRef)
  pub on_exhausted : ExhaustedAction
  pub default_response : Attributes

pub record Edge (F : Type 0) : Type 0 where
  pub source : Option OperationRef
  pub target : Option OperationRef
  pub protocol : Protocol
  pub latency : LatencyDist
  pub error_rate : F
  pub timeout : Duration
  pub retries : ℤ
  pub retry_backoff : BackoffPolicy
  pub retry_base_delay : Duration
  pub on_failure : Option RecoveryPolicy

pub record Operation (F : Type 0) : Type 0 where
  pub name : String
  pub service : Option ServiceRef
  pub calls : CallNodes
  pub log_events : List LogEventSpec
  pub metrics : List (MetricSpec F)
  pub state_updates : List (MetricStateUpdateSpec F)
  pub profile : Option (ProfileSpec F)

pub record Service (F : Type 0) : Type 0 where
  pub name : String
  pub namespace : String
  pub kind : ServiceKind
  pub replicas : ℤ
  pub language : String
  pub framework : String
  pub version : String
  pub operations : List (String × Option OperationRef)
  pub metrics : List (ObservableMetricSpec F)

mutual
  pub data Step : Type 0 where
    null : Step
    step : (op : Option OperationRef) (parallel : Steps) → Step

  pub data Steps : Type 0 where
    end : Steps
    cons : Step → Steps → Steps

pub record Journey (F : Type 0) : Type 0 where
  pub name : String
  pub steps : Steps
  pub weight : F

pub record FaultTarget : Type 0 where
  pub kind : TargetKind
  pub service : Option ServiceRef
  pub operation : Option OperationRef
  pub edge : Option EdgeRef

pub record SeverityParams (F : Type 0) : Type 0 where
  pub probability : F
  pub multiplier : F
  pub add : Duration
  pub value : F

pub record FaultSchedulePoint (F : Type 0) : Type 0 where
  pub at : Duration
  pub intensity : F

pub record FaultSpec (F : Type 0) : Type 0 where
  pub target : FaultTarget
  pub kind : FaultKind
  pub severity : SeverityParams F
  pub schedule : List (FaultSchedulePoint F)

pub record Schema (F : Type 0) : Type 0 where
  pub namespace : String
  pub services : List (String × Option ServiceRef)
  pub journeys : List (String × Option (Journey F))
  pub faults : List (FaultSpec F)

-- The objects behind the pointers. Go's pointers, where not nil, have an object behind them.
pub record Heap (F : Type 0) : Type 0 where
  pub service : ServiceRef → Service F
  pub operation : OperationRef → Operation F
  pub edge : EdgeRef → Edge F
