-- ===== src/Topology/Raw.antt =====
-- topology/raw.go: a topology as it stands in YAML. A pointer is an Option, or a constructor for nil
-- where the types are recursive.
use xk6_otel_gen.Prelude.{String, Bool, Option, List}
use xk6_otel_gen.Prelude.Int.{ℤ}
use xk6_otel_gen.Topology.Attributes.{Attributes}
use xk6_otel_gen.Topology.Types.{Duration}

pub record RawStack (F : Type 0) : Type 0 where
  pub frames : List String
  pub weight : F

-- A rawProfileFault is the text of its kind.
pub record RawProfile (F : Type 0) : Type 0 where
  pub enabled : Bool
  pub sample_rate : Option ℤ
  pub baseline : List (Option (RawStack F))
  pub incident : List (Option (RawStack F))
  pub when_fault : Option String

pub record RawMetricFaultLink (F : Type 0) : Type 0 where
  pub kind : String
  pub delta : Option F
  pub value : Option F

pub record RawMetricSource : Type 0 where
  pub accumulator : String
  pub minus : String

pub record RawMetric (F : Type 0) : Type 0 where
  pub name : String
  pub type : String
  pub unit : String
  pub baseline : Option F
  pub condition : String
  pub attributes : Attributes
  pub when_fault : Option (RawMetricFaultLink F)
  pub source : Option RawMetricSource

pub record RawStateUpdate (F : Type 0) : Type 0 where
  pub key : String
  pub delta : Option F
  pub condition : String
  pub when_fault : Option (RawMetricFaultLink F)

pub record RawLogEvent : Type 0 where
  pub name : String
  pub severity : String
  pub condition : String
  pub body : String
  pub attributes : Attributes

pub record RawLatencyDist : Type 0 where
  pub distribution : String
  pub p50 : Option Duration
  pub p95 : Option Duration

pub record RawCallTarget : Type 0 where
  pub service : String
  pub operation : String

-- The fields of a rawCallNode that do not refer to other call nodes.
pub record RawCallFields (F : Type 0) : Type 0 where
  pub target : Option RawCallTarget
  pub protocol : String
  pub latency : Option RawLatencyDist
  pub error_rate : Option F
  pub timeout : Option Duration
  pub retries : Option ℤ
  pub retry_backoff : String
  pub retry_base_delay : Option Duration

mutual
  pub data RawCallNode (F : Type 0) : Type 0 where
    null : RawCallNode F
    call :
        (fields : RawCallFields F) (parallel : RawCallNodes F) (on_failure : RawRecoveryPolicy F)
        → RawCallNode F

  pub data RawCallNodes (F : Type 0) : Type 0 where
    end : RawCallNodes F
    cons : RawCallNode F → RawCallNodes F → RawCallNodes F

  pub data RawRecoveryPolicy (F : Type 0) : Type 0 where
    no_policy : RawRecoveryPolicy F
    policy :
        (fallback : RawCallNodes F) (on_exhausted : String) (default_response : Attributes)
        → RawRecoveryPolicy F

mutual
  pub data RawStep : Type 0 where
    null : RawStep
    step : (service operation : String) (parallel : RawSteps) → RawStep

  pub data RawSteps : Type 0 where
    end : RawSteps
    cons : RawStep → RawSteps → RawSteps

pub record RawSeverity (F : Type 0) : Type 0 where
  pub probability : Option F
  pub multiplier : Option F
  pub add : Option Duration
  pub value : Option F

pub record RawFaultSchedule (F : Type 0) : Type 0 where
  pub at : Option Duration
  pub intensity : Option F

pub record RawFault (F : Type 0) : Type 0 where
  pub target : String
  pub kind : String
  pub severity : Option (RawSeverity F)
  pub schedule : List (Option (RawFaultSchedule F))

pub record RawOperation (F : Type 0) : Type 0 where
  pub name : String
  pub calls : RawCallNodes F
  pub log_events : List (Option RawLogEvent)
  pub metrics : List (Option (RawMetric F))
  pub state_updates : List (Option (RawStateUpdate F))
  pub profile : Option (RawProfile F)

pub record RawService (F : Type 0) : Type 0 where
  pub namespace : String
  pub kind : String
  pub replicas : Option ℤ
  pub language : String
  pub framework : String
  pub version : String
  pub metrics : List (Option (RawMetric F))
  pub operations : List (Option (RawOperation F))

pub record RawJourney (F : Type 0) : Type 0 where
  pub steps : RawSteps
  pub weight : Option F

pub record RawSchema (F : Type 0) : Type 0 where
  pub namespace : String
  pub services : List (String × Option (RawService F))
  pub journeys : List (String × Option (RawJourney F))
  pub faults : List (Option (RawFault F))
