-- ===== src/Journey/Fault.antt =====
-- journey/fault.go and the fault intensities of journey/engine.go: what the faults that target a node
-- amount to, and the latency of an edge. Each function that draws or reads the clock takes the world
-- and returns it.
pub mod Fold
use Prim.Native.String.{◌++◌ as ◌++ₛ◌}
use xk6_otel_gen.Prelude.{
  ℕ, String, Bool, true, false, not, ◌&&◌, ◌||◌, Option, none, some, List, [], ◌∷◌, str_eq,
  is_empty, if◌then◌else◌,
}
use xk6_otel_gen.Prelude.Int.{ℤ, pos, negsuc, ltb_ℤ, add_64, sub_64}
use xk6_otel_gen.Topology.Enums.{ServiceKind, Protocol, FaultKind, TargetKind}
use xk6_otel_gen.Topology.Float.{Float64}
use xk6_otel_gen.Topology.Types.{
  Heap, Schema, Service, Operation, Edge, Duration, LatencyDist, FaultSpec, FaultTarget,
  FaultSchedulePoint, SeverityParams, ServiceRef, OperationRef, EdgeRef,
}
use xk6_otel_gen.Topology.Graph.{get}
use xk6_otel_gen.Topology.Faults.{FaultOverlay}
use xk6_otel_gen.Journey.World.{World}
use xk6_otel_gen.Journey.Plan.{NodeInfo}
use xk6_otel_gen.Journey.Outcome.{is_grpc}

-- 10 * time.Millisecond
abbrev pub default_entry_latency : Duration
default_entry_latency = pos 10_000_000

-- a <= b on int64.
abbrev pub leb_ℤ : ℤ → ℤ → Bool
leb_ℤ a b = not (ltb_ℤ b a)

abbrev pub is_store : ServiceKind → Bool
is_store ServiceKind.database = true
is_store ServiceKind.cache = true
is_store _ = false

module _ {F : Type 0} (h : Heap F) where
  abbrev pub operation_string : Option OperationRef → String
  operation_string none = ""
  operation_string (some op) = elim (h.operation op).service [
    | none ↦ "." ++ₛ (h.operation op).name
    | some svc ↦ (h.service svc).name ++ₛ ("." ++ₛ (h.operation op).name)
  ]

  -- The switch of faultTargetString.
  unfoldable pub target_string : TargetKind → FaultTarget → String
  target_string TargetKind.node target = elim target.service [
    | none ↦ ""
    | some svc ↦ "node:" ++ₛ (h.service svc).name
  ]
  target_string TargetKind.operation target = elim target.operation [
    | none ↦ ""
    | some op ↦ "operation:" ++ₛ operation_string (some op)
  ]
  target_string TargetKind.edge target = elim target.edge [
    | none ↦ ""
    | some e ↦
        "edge:"
        ++ₛ (operation_string (h.edge e).source ++ₛ ("->" ++ₛ operation_string (h.edge e).target))
  ]
  target_string (TargetKind.other k) target = ""

  unfoldable pub fault_target_string : FaultTarget → String
  unfolding target_string
  fault_target_string target = target_string target.kind target

  abbrev pub in_store : Option ServiceRef → Bool
  in_store none = false
  in_store (some svc) = is_store (h.service svc).kind

  abbrev pub over_grpc : Option EdgeRef → Bool
  over_grpc none = false
  over_grpc (some e) = is_grpc (h.edge e).protocol

  unfoldable pub default_fault_error_type : NodeInfo F → String
  default_fault_error_type info =
      if in_store info.service
      then "db.connection_lost"
      else if over_grpc info.edge
      then "grpc.unavailable"
      else "http.500"

-- time.Duration(x) and the float operations of the source.
module _ (fl : Float64) where
  open fl use {
    F, zero_f, one_f, lt_f, le_f, add_f, sub_f, mul_f, div_f, log_f, exp_f, sqrt_f, cos_f, literal,
    is_nan, is_inf, of_int, to_int,
  }

  unfoldable pub clamp_probability : F → F
  clamp_probability v =
      if is_nan v
      then zero_f
      else if lt_f v zero_f
      then zero_f
      else if lt_f one_f v
      then one_f
      else v

  -- What setFaultIntensity and setFaultTargetIntensity store.
  abbrev pub stored_intensity : F → F
  stored_intensity x = if lt_f x zero_f then zero_f else x

  abbrev has_target : Heap F → String → List (FaultSpec F) → Bool
  has_target h target [] = false
  has_target h target (spec ∷ specs) =
      str_eq (fault_target_string h spec.target) target || has_target h target specs

  unfoldable pub has_fault_target : Heap F → Schema F → String → Bool
  has_fault_target h s target = not (str_eq target "") && has_target h target s.faults

  -- setFaultTargetIntensity on the map of the intensities by target, `none` for its error.
  unfoldable pub set_fault_target_intensity :
      Heap F → Schema F → String → F → List (String × F) → Option (List (String × F))
  unfolding has_fault_target
  set_fault_target_intensity h s target x intensities =
      if has_fault_target h s target
      then some ((target, stored_intensity x) ∷ intensities)
      else none

  -- The loop of scheduledFaultIntensity.
  abbrev pub schedule_intensity : Duration → F → List (FaultSchedulePoint F) → F
  schedule_intensity elapsed intensity [] = intensity
  schedule_intensity elapsed intensity (point ∷ points) =
      if ltb_ℤ elapsed point.at
      then intensity
      else schedule_intensity elapsed point.intensity points

  abbrev pub finite_intensity : F → F
  finite_intensity x = if lt_f x zero_f then zero_f else if is_nan x || is_inf x then zero_f else x

  -- scheduledFaultIntensity, given the time since the start.
  unfoldable pub scheduled_fault_intensity : Duration → List (FaultSchedulePoint F) → F
  scheduled_fault_intensity elapsed schedule =
      finite_intensity (schedule_intensity elapsed zero_f schedule)

  unfoldable pub sample_inflation : FaultSpec F → F → Duration
  unfolding add_64
  sample_inflation spec intensity =
      let add = if ltb_ℤ spec.severity.add (pos 0) then pos 0 else spec.severity.add in
      let scale = finite_intensity intensity in
      if le_f spec.severity.multiplier one_f
      then to_int (mul_f (of_int add) scale)
      else to_int (
          mul_f
            (of_int (
              add_64 add (
                to_int
                  (mul_f (sub_f spec.severity.multiplier one_f) (of_int default_entry_latency)))))
            scale)

  module _ (world : World F) where
    open world use {W, random_float, engine_intensity, target_intensity, elapsed}

    unfoldable pub sample_lognormal : Duration → Duration → W → Duration × W
    sample_lognormal p50 p95 w =
        let mu = log_f (of_int p50) in
        let sigma =
          div_f (log_f (div_f (of_int p95) (of_int p50))) (literal "1.6448536269514722") in
        let (u1, w1) = random_float w in
        let u1' = if le_f u1 zero_f then literal "math.SmallestNonzeroFloat64" else u1 in
        let (u2, w2) = random_float w1 in
        let z =
          mul_f (sqrt_f (mul_f (literal "-2") (log_f u1')))
            (cos_f (mul_f (literal "2*math.Pi") u2)) in
        if leb_ℤ p50 (pos 0)
        then (pos 0, w)
        else if leb_ℤ p95 p50
        then (p50, w)
        else (to_int (exp_f (add_f mu (mul_f sigma z))), w2)

    unfoldable pub sample_uniform : Duration → Duration → W → Duration × W
    unfolding add_64 sub_64
    sample_uniform p50 p95 w =
        let (u, w') = random_float w in
        if leb_ℤ p95 p50
        then (p50, w)
        else (add_64 p50 (to_int (mul_f u (of_int (sub_64 p95 p50)))), w')

    unfoldable pub sample_edge_latency : Option (Edge F) → W → Duration × W
    unfolding sample_lognormal sample_uniform
    sample_edge_latency none w = (default_entry_latency, w)
    sample_edge_latency (some edge) w =
        let dist = edge.latency in
        if str_eq dist.distribution "" || str_eq dist.distribution "fixed"
        then (dist.p50, w)
        else if str_eq dist.distribution "lognormal"
        then sample_lognormal dist.p50 dist.p95 w
        else if str_eq dist.distribution "uniform"
        then sample_uniform dist.p50 dist.p95 w
        else (dist.p50, w)

    -- faultActiveWithIntensity
    unfoldable pub fault_active : FaultSpec F → F → W → Bool × W
    unfolding clamp_probability
    fault_active spec intensity w =
        let eff = clamp_probability (mul_f spec.severity.probability intensity) in
        let (u, w') = random_float w in
        if le_f eff zero_f
        then (false, w)
        else if le_f one_f eff
        then (true, w)
        else (lt_f u eff, w')

    -- What faultIntensityFor answers when no intensity is stored for the target.
    unfoldable pub default_intensity : FaultSpec F → W → F × W
    unfolding scheduled_fault_intensity
    default_intensity spec w =
        if is_empty spec.schedule
        then engine_intensity w
        else (let (since, w') = elapsed w in (scheduled_fault_intensity since spec.schedule, w'))

    module _ (h : Heap F) where
      unfoldable pub fault_intensity_for : FaultSpec F → W → F × W
      unfolding default_intensity
      fault_intensity_for spec w =
          let target = fault_target_string h spec.target in
          let (stored, w') = target_intensity target w in
          if str_eq target ""
          then default_intensity spec w
          else elim stored [ none ↦ default_intensity spec w' | some x ↦ (x, w') ]
