-- ===== src/Journey/Outcome.antt =====
-- journey/executor.go: outcomes of steps and the functions on them that draw and emit nothing.
pub mod Aggregate
pub mod Backoff
use Prim.Native.Char.{code}
use xk6_otel_gen.Prelude.{
  ℕ, zero, suc, ◌+◌, ◌-◌, ◌*◌, ◌^◌, String, Bool, true, false, not, ◌&&◌, ◌||◌, Option, none, some,
  List, [], ◌∷◌, str_eq, ltb, leb, ◌==◌, if◌then◌else◌,
}
use xk6_otel_gen.Prelude.Text.{after_prefix}
use xk6_otel_gen.Prelude.Atoi.{atoi}
use xk6_otel_gen.Prelude.Int.{ℤ, pos, sub_ℕ, ltb_ℤ, eq_ℤ, mul_64, shift_one}
use xk6_otel_gen.Topology.Enums.{Protocol, BackoffPolicy}
use xk6_otel_gen.Topology.Types.{default_retry_base_delay, Edge, EdgeRef, Duration}

pub record Outcome : Type 0 where
  pub success : Bool
  pub latency : Duration
  pub status_code : ℤ
  pub error_type : String
  pub cascaded : Bool
  pub primary_failed : Bool
  pub fallback_attempts : List (Option EdgeRef)
  pub fallback_used : Option EdgeRef
  pub default_used : Bool
  pub silently_succeeded : Bool

-- Outcome{}
abbrev pub zero_outcome : Outcome
zero_outcome = record {
  success = false;
  latency = pos 0;
  status_code = pos 0;
  error_type = "";
  cascaded = false;
  primary_failed = false;
  fallback_attempts = [];
  fallback_used = none;
  default_used = false;
  silently_succeeded = false;
}

-- Outcome{Success: success, StatusCode: code, ErrorType: kind, Latency: latency}
abbrev pub outcome : Bool → ℤ → String → Duration → Outcome
outcome success code kind latency = record zero_outcome {
  success = success;
  latency = latency;
  status_code = code;
  error_type = kind;
}

abbrev pub is_grpc : Protocol → Bool
is_grpc Protocol.grpc = true
is_grpc _ = false

named_status_code : String → ℤ
named_status_code kind =
    if str_eq kind "grpc.unavailable"
    then pos 14
    else if str_eq kind "grpc.deadline_exceeded"
    then pos 4
    else if str_eq kind "grpc.unauthenticated"
    then pos 16
    else if str_eq kind "context_canceled"
    then pos 0
    else pos 500

unfoldable pub pick_status_code : Bool → String → ℤ
unfolding atoi after_prefix named_status_code
pick_status_code false kind = pos 200
pick_status_code true kind = elim (after_prefix "http." kind) [
  | none ↦ named_status_code kind
  | some digits ↦ elim (atoi digits) [ none ↦ named_status_code kind | some n ↦ n ]
]

-- The body of the loop of aggregateParallelOutcomes.
unfoldable pub merge_outcome : Outcome → Outcome → Outcome
merge_outcome agg o =
    let agg' = record agg {
      latency = if ltb_ℤ agg.latency o.latency then o.latency else agg.latency;
    } in
    if not o.success && agg.success
    then record agg' {
      success = false;
      status_code = o.status_code;
      error_type = o.error_type;
      cascaded = o.cascaded;
    }
    else agg'

unfoldable pub merge_outcomes : Outcome → List Outcome → Outcome
unfolding merge_outcome
merge_outcomes agg [] = agg
merge_outcomes agg (o ∷ os) = merge_outcomes (merge_outcome agg o) os

unfoldable pub aggregate_parallel_outcomes : List Outcome → Outcome
unfolding merge_outcomes
aggregate_parallel_outcomes os = merge_outcomes (outcome true (pos 200) "" (pos 0)) os

-- The switch of retryBackoffDelay, for the retry n + 1.
unfoldable pub delay_of : BackoffPolicy → ℕ → Duration → Duration
unfolding mul_64 shift_one
delay_of BackoffPolicy.constant n base = base
delay_of BackoffPolicy.linear n base = mul_64 (pos (suc n)) base
delay_of BackoffPolicy.exponential n base = mul_64 (shift_one n) base
delay_of (BackoffPolicy.other k) n base = mul_64 (shift_one n) base

module _ {F : Type 0} where
  abbrev pub base_delay : Edge F → Duration
  base_delay edge =
      if eq_ℤ edge.retry_base_delay (pos 0) then default_retry_base_delay else edge.retry_base_delay

  -- retryBackoffDelay for an edge, before the retry of the given number.
  unfoldable pub retry_backoff_delay : Edge F → ℕ → Duration
  unfolding delay_of
  retry_backoff_delay edge zero = pos 0
  retry_backoff_delay edge (suc n) = delay_of edge.retry_backoff n (base_delay edge)

  -- edge.Timeout > 0 && latency > edge.Timeout
  abbrev pub times_out : Edge F → Duration → Bool
  times_out edge latency = ltb_ℤ (pos 0) edge.timeout && ltb_ℤ edge.timeout latency

  unfoldable pub cap_latency_to_timeout : Option (Edge F) → Duration → Duration
  cap_latency_to_timeout none latency = latency
  cap_latency_to_timeout (some edge) latency =
      if times_out edge latency then edge.timeout else latency

  unfoldable pub apply_timeout_failure : Edge F → Outcome → Outcome
  apply_timeout_failure edge o =
      if is_grpc edge.protocol
      then record o { success = false; status_code = pos 4; error_type = "grpc.deadline_exceeded" }
      else record o { success = false; status_code = pos 504; error_type = "timeout" }

unfoldable pub should_cascade_children : Outcome → Bool
should_cascade_children o =
    not o.success
    && (str_eq o.error_type "crashed"
        || (str_eq o.error_type "connection_refused"
            || (str_eq o.error_type "context_canceled"
                || (str_eq o.error_type "timeout"
                    || str_eq o.error_type "grpc.deadline_exceeded"))))
