-- ===== src/Tests.antt =====
-- A small topology, and the theorems applied to it.
mod Parsing
mod RoundTrips
mod Outputs
use xk6_otel_gen.Prelude.{
  ℕ, ◌≡◌, ◌↔◌, ◌⊎◌, subst, Bool-cases, inl, inr, ◌≤◌, ◌<◌, refl, true, false, String, Option, none,
  some, List, [], ◌∷◌, length, count, arith, ◌==◌, if◌then◌else◌,
}
use mathlib.Core.List.{Memᴰ}
use xk6_otel_gen.Prelude.Int.{ℤ, pos, eq_ℤ, ltb_ℤ, ◌≤ℤ◌, ◌+ℤ◌, ◌-ℤ◌, ◌*ℤ◌}
use xk6_otel_gen.Topology.Enums.{
  FaultKind, TargetKind, ServiceKind, Protocol, BackoffPolicy, ExhaustedAction,
}
use xk6_otel_gen.Topology.Float.{Float64}
use xk6_otel_gen.Topology.Types.{
  Heap, Schema, Service, Operation, Edge, Journey, CallNode, CallNodes, Step, Steps, RecoveryPolicy,
  EdgeRef,
}
use xk6_otel_gen.Topology.Errors.{ValidationError}
use xk6_otel_gen.Topology.Graph.{
  collect, collect_from, lookup, get, contains, points_to, fallback_edges, outgoing_targets,
  service_operations, all_schema_operations, outgoing_edges, edges_in_calls, edges_in_call,
}
use xk6_otel_gen.Topology.Dag.{
  degree, assign, zero_degrees, increment, ready, relax, relax_all, unvisited, count_edges,
  in_degrees, drain, validate_dag,
}
use xk6_otel_gen.Topology.Validate.Structure.{
  check_service_key, validate_map_key_consistency, check_back_pointers, check_service_back_pointers,
  validate_back_pointers, check_operation_calls, check_service_calls, for_each_calls,
  validate_edge_endpoints, validate_no_orphan_references, validate_call_node_variants,
  check_journey_steps, validate_journey_reachability, no_orphan_calls, no_orphan_call,
  call_variants, call_variant, steps_reachable, step_reachable, fallback_endpoints,
}
use xk6_otel_gen.Topology.Validate.Domain.{
  valid_service_kind, valid_protocol, valid_backoff, valid_fault_kind, valid_exhausted,
  valid_log_condition, valid_log_severity, valid_sync_metric_type, valid_observable_metric_type,
  valid_latency_distribution, valid_probability, valid_float_metric_value,
  validate_observable_metric_spec, validate_operation_domain, validate_fault_schedule,
  validate_edge_domain, check_name, validate_stack_sample, validate_metric_fault_link,
  validate_log_event, validate_metric, validate_state_update, validate_profile,
}
use xk6_otel_gen.Topology.Validate.Ranges.{
  located_in_operation, located_in_service, located_edges, operation_ranges, service_ranges,
  edge_ranges, journey_ranges, fault_ranges, validate_domain_ranges, located_calls, located_call,
  located_fallbacks,
}
use xk6_otel_gen.Topology.Validate.Targets.{
  validate_fault_target, validate_fault_targets, check_fallbacks, ownership_of_edge,
  ownership_of_edges, validate_recovery_policy_ownership, target_of_kind,
}
use xk6_otel_gen.Topology.Validate.Whole.{validate}
use xk6_otel_gen.Topology.Faults.{
  apply_faults, targeting, node_of, operation_of, edge_of, no_faults,
}
use xk6_otel_gen.Topology.Faults.{apply_faults_lem}
use xk6_otel_gen.Topology.Dag.Acyclic.{
  validate_dag_total, validate_dag-IsRanked, validate_dag_quiet, IsRanked,
}
use xk6_otel_gen.Journey.World.{World, Exec, return}
use xk6_otel_gen.Journey.Plan.{Plan, Node, Nodes, NodeInfo, ok, build_plan}
use xk6_otel_gen.Journey.Plan.Validated.{build_plan_validated}
use xk6_otel_gen.Journey.Engine.{
  Engine, new_engine, started, cached_plan, pick_journey, total_weight, pick_from, last_weighted,
  weight_of, unskipped_weight,
}
use xk6_otel_gen.Journey.Engine.Start.{new_engine_validated}
use xk6_otel_gen.Journey.Engine.Pick.{pick_journey-Weighted, pick_journey-none_iff, Weighted}
use xk6_otel_gen.Journey.Outcome.{
  Outcome, outcome, zero_outcome, aggregate_parallel_outcomes, retry_backoff_delay,
  cap_latency_to_timeout, apply_timeout_failure, should_cascade_children,
}
use xk6_otel_gen.Journey.Outcome.Aggregate.{
  aggregate_parallel_outcomes_lem, group_outcome, first_failure, longest,
}
use xk6_otel_gen.Journey.Outcome.Backoff.{retry_backoff_delay_exact, retry_backoff_delay_wraps}
use xk6_otel_gen.Journey.Recovery.{apply_recovery, recover, exhaust}
use xk6_otel_gen.Journey.Recovery.Outcomes.{apply_recovery_lem, RecoveredBy, Exhausted}
use xk6_otel_gen.Journey.Telemetry.{Event}
use xk6_otel_gen.Journey.Executor.{execute}
use xk6_otel_gen.Journey.Executor.Spans.{open_spans}
use xk6_otel_gen.Journey.Executor.Total.{execute-Ends}

-- Whole numbers in the place of floats.
abbrev whole : Float64
whole = record {
  F = ℤ;
  zero_f = pos 0;
  one_f = pos 1;
  eq_f = eq_ℤ;
  lt_f = ltb_ℤ;
  le_f = λ a b. if ltb_ℤ b a then false else true;
  add_f = ◌+ℤ◌;
  sub_f = ◌-ℤ◌;
  mul_f = ◌*ℤ◌;
  div_f = λ a b. a;
  log_f = λ a. a;
  exp_f = λ a. a;
  sqrt_f = λ a. a;
  cos_f = λ a. a;
  literal = λ s. pos 0;
  is_nan = λ a. false;
  is_inf = λ a. false;
  of_int = λ a. a;
  to_int = λ a. a;
}

-- The service 0 with operation 0 calls, by edge 0, operation 1 of service 1; if that fails, it falls
-- back by edge 1 to operation 2 of service 1.
abbrev shop_operation : ℕ → Operation ℤ
shop_operation op = record {
  name = if op == 0 then "browse" else if op == 1 then "query" else "cached";
  service = some (if op == 0 then 0 else 1);
  calls =
      if op == 0
      then CallNodes.cons (CallNode.call (some 0) CallNodes.end) CallNodes.end
      else CallNodes.end;
  log_events = [];
  metrics = [];
  state_updates = [];
  profile = none;
}

abbrev shop_edge : ℕ → Edge ℤ
shop_edge e = record {
  source = some 0;
  target = some (if e == 0 then 1 else 2);
  protocol = Protocol.http;
  latency = record { distribution = "constant"; p50 = pos 1_000_000; p95 = pos 1_000_000 };
  error_rate = pos 0;
  timeout = pos 2_000_000_000;
  retries = pos 2;
  retry_backoff = BackoffPolicy.exponential;
  retry_base_delay = pos 50_000_000;
  on_failure =
      if e == 0
      then some (record {
        fallback = some 1 ∷ [];
        on_exhausted = ExhaustedAction.return_default;
        default_response = none;
      })
      else none;
}

abbrev shop_service : ℕ → Service ℤ
shop_service svc = record {
  name = if svc == 0 then "front" else "store";
  namespace = "";
  kind = if svc == 0 then ServiceKind.application else ServiceKind.database;
  replicas = pos 1;
  language = "";
  framework = "";
  version = "";
  operations =
      if svc == 0 then ("browse", some 0) ∷ [] else ("query", some 1) ∷ ("cached", some 2) ∷ [];
  metrics = [];
}

abbrev shop_heap : Heap ℤ
shop_heap = record { service = shop_service; operation = shop_operation; edge = shop_edge }

abbrev visit : Journey ℤ
visit = record {
  name = "visit";
  steps = Steps.cons (Step.step (some 0) Steps.end) Steps.end;
  weight = pos 1;
}

abbrev shop : Schema ℤ
shop = record {
  namespace = "";
  services = ("front", some 0) ∷ ("store", some 1) ∷ [];
  journeys = ("visit", some visit) ∷ [];
  faults = [];
}

shop-valid : validate whole 8 shop_heap (some shop) ≡ some []
unfolding collect collect_from lookup get contains points_to fallback_edges outgoing_targets
    service_operations all_schema_operations outgoing_edges edges_in_calls edges_in_call degree
    assign zero_degrees increment ready relax relax_all unvisited count_edges in_degrees drain
    validate_dag check_service_key validate_map_key_consistency check_back_pointers
    check_service_back_pointers validate_back_pointers check_operation_calls check_service_calls
    for_each_calls validate_edge_endpoints validate_no_orphan_references validate_call_node_variants
    check_journey_steps validate_journey_reachability no_orphan_calls no_orphan_call call_variants
    call_variant steps_reachable step_reachable valid_latency_distribution valid_probability
    validate_fault_schedule validate_edge_domain located_in_operation located_in_service
    located_edges operation_ranges service_ranges edge_ranges journey_ranges fault_ranges
    validate_domain_ranges located_calls located_call validate_fault_target validate_fault_targets
    check_fallbacks ownership_of_edge ownership_of_edges validate_recovery_policy_ownership validate
    ◌+ℤ◌ ◌-ℤ◌ valid_service_kind valid_protocol valid_backoff valid_fault_kind valid_exhausted
    valid_log_condition valid_log_severity valid_sync_metric_type valid_observable_metric_type
    valid_float_metric_value validate_observable_metric_spec validate_operation_domain check_name
    validate_stack_sample validate_metric_fault_link validate_log_event validate_metric
    validate_state_update validate_profile located_fallbacks target_of_kind fallback_endpoints
shop-valid = refl

build_plan_validated_example :
    (plan : Plan ℤ) × (build_plan shop_heap 3 shop "visit" ≡ ok plan)
    × (plan.journey_name ≡ "visit")
unfolding all_schema_operations service_operations get collect lookup
build_plan_validated_example =
    build_plan_validated whole 8 3 shop_heap shop "visit" (some visit) shop-valid (omega arith) refl

-- What stands for a synthesizer.
abbrev tracer : String
tracer = "tracer"

new_engine_validated_example :
    (e : Engine ℤ) × (new_engine shop_heap 3
        (λ names. names)
        (some shop)
        (some no_faults)
        (some tracer)
      ≡ started e)
    × ((name : String) (found : Option (Journey ℤ))
        → lookup name shop.journeys ≡ some found
        → (plan : Plan ℤ) × (cached_plan e name ≡ ok plan)
          × (build_plan shop_heap 3 shop name ≡ ok plan))
unfolding all_schema_operations service_operations get collect
new_engine_validated_example =
    new_engine_validated whole 8 3 (λ names. names) shop_heap shop no_faults tracer shop-valid
      (omega arith)

validate_dag_total_example :
    (errs : List ValidationError) × (validate_dag shop_heap (some shop) ≡ some errs)
validate_dag_total_example = validate_dag_total shop_heap shop

validate_dag-IsRanked_example :
    (rank : ℕ → ℕ) × IsRanked shop_heap shop rank
    × ((u : ℕ)
        → 0 < count u (all_schema_operations shop_heap shop)
        → rank u < length (all_schema_operations shop_heap shop))
unfolding validate_dag collect get lookup points_to fallback_edges outgoing_targets
    service_operations all_schema_operations edges_in_call edges_in_calls degree assign zero_degrees
    increment ready relax relax_all unvisited count_edges in_degrees drain ◌+ℤ◌ ◌-ℤ◌ outgoing_edges
validate_dag-IsRanked_example = validate_dag-IsRanked shop_heap shop refl

-- Operation 0 is above the operations 1 and 2 that it calls.
abbrev shop_rank : ℕ → ℕ
shop_rank op = if op == 0 then 1 else 0

abbrev struck_shop : Schema ℤ
struck_shop = record shop {
  faults =
      record {
        target = record { kind = TargetKind.node; service = some 0; operation = none; edge = none };
        kind = FaultKind.crash;
        severity = record { probability = pos 1; multiplier = pos 0; add = pos 0; value = pos 0 };
        schedule = [];
      }
      ∷ [];
}

apply_faults_lem_example :
    ((apply_faults (some struck_shop)).node_faults 0
      ≡ targeting (λ f. node_of f.target.kind f.target) 0 struck_shop.faults)
    × (((apply_faults (some struck_shop)).operation_faults 0
          ≡ targeting (λ f. operation_of f.target.kind f.target) 0 struck_shop.faults)
        × ((apply_faults (some struck_shop)).edge_faults 0
            ≡ targeting (λ f. edge_of f.target.kind f.target) 0 struck_shop.faults))
apply_faults_lem_example = apply_faults_lem (some struck_shop) 0

-- A group of which the second member failed.
abbrev group : List Outcome
group =
    outcome true (pos 200) "" (pos 30) ∷ outcome false (pos 503) "connection_refused" (pos 20) ∷ []

aggregate_parallel_outcomes_lem_example :
    (aggregate_parallel_outcomes group
      ≡ group_outcome (first_failure group) (longest (pos 0) group))
    × ((o : Outcome) → Memᴰ o group → o.latency ≤ℤ (aggregate_parallel_outcomes group).latency)
aggregate_parallel_outcomes_lem_example = aggregate_parallel_outcomes_lem group

retry_backoff_delay_exact_example : retry_backoff_delay (shop_edge 0) 4 ≡ pos 400_000_000
retry_backoff_delay_exact_example =
    retry_backoff_delay_exact (shop_edge 0) 3 50_000_000 refl (omega arith) (omega arith)

retry_backoff_delay_wraps_example : retry_backoff_delay (shop_edge 0) 65 ≡ pos 0
retry_backoff_delay_wraps_example = retry_backoff_delay_wraps (shop_edge 0) 0 refl

-- The outcome of the call over edge 0 after 3 seconds.
abbrev late : ℤ
late = pos 3_000_000_000

shop_single : (v : ℕ) → count v (all_schema_operations shop_heap shop) ≤ 1
unfolding all_schema_operations service_operations get collect lookup
shop_single v = ground arith

shop-IsRanked : IsRanked shop_heap shop shop_rank
unfolding all_schema_operations service_operations get collect lookup outgoing_targets points_to
    fallback_edges edges_in_call edges_in_calls outgoing_edges
shop-IsRanked u v ku kv edge = ground arith

validate_dag_quiet_example : validate_dag shop_heap (some shop) ≡ some []
validate_dag_quiet_example = validate_dag_quiet shop_heap shop shop_single shop_rank shop-IsRanked

-- An engine over the small topology.
abbrev shop_engine : Engine ℤ
shop_engine = record { schema = shop; overlay = no_faults; plans = []; journey_keys = "visit" ∷ [] }

above_zero : (x : ℤ) → ltb_ℤ (pos 0) x ≡ true → (if ltb_ℤ (pos 0) x then false else true) ≡ false
above_zero x e = rw e refl

pick_journey-Weighted_example : Weighted whole shop ("visit" ∷ []) "visit"
unfolding pick_journey total_weight pick_from last_weighted weight_of unskipped_weight get lookup
    ◌+ℤ◌ ◌*ℤ◌
pick_journey-Weighted_example =
    pick_journey-Weighted whole above_zero shop_engine (pos 0) "visit" refl

pick_journey-none_iff_example :
    (pick_journey whole shop_engine (pos 0) ≡ none)
    ↔ (Float64.le_f whole (total_weight whole shop (pos 0) ("visit" ∷ [])) (pos 0) ≡ true)
pick_journey-none_iff_example = pick_journey-none_iff whole shop_engine (pos 0) refl

-- A world in which every reading is the same.
abbrev still : World ℤ
still = record {
  W = ℕ;
  random_float = λ w. (pos 0, w);
  random_int = λ n w. (pos 0, w);
  engine_intensity = λ w. (pos 1, w);
  target_intensity = λ target w. (none, w);
  elapsed = λ w. (pos 0, w);
  is_canceled = λ w. (false, w);
  has_valid_span = λ w. (true, w);
  fork = λ w. (w, w);
}

abbrev call_info : NodeInfo ℤ
call_info = record {
  service = some 1;
  operation = "query";
  edge = some 0;
  log_events = [];
  metrics = [];
  state_updates = [];
  profile = none;
}

abbrev call_plan : Plan ℤ
call_plan = record { journey_name = "visit"; root = Node.node call_info Nodes.end Nodes.end }

abbrev edge_rank : EdgeRef → ℕ
edge_rank e = if e == 0 then 1 else 0

shop_policies :
    (e : EdgeRef) (p : RecoveryPolicy)
    → (shop_edge e).on_failure ≡ some p
    → (e ≡ 0) × (p.fallback ≡ some 1 ∷ [])
shop_policies e p has = elim (Bool-cases (e == 0)) [
  | inl first ↦ (ground arith, ground arith)
  | inr later ↦ absurd (ground arith)
]

only_member : (f : EdgeRef) → Memᴰ (some f) (some 1 ∷ []) → f ≡ 1
only_member f (Memᴰ.head e) = cc
only_member f (Memᴰ.tail m) = elim m [ ]

shop_ranked :
    (e : EdgeRef) (p : RecoveryPolicy)
    → (shop_edge e).on_failure ≡ some p
    → (f : EdgeRef) → Memᴰ (some f) p.fallback
    → edge_rank f < edge_rank e
shop_ranked e p has f m =
    let (first, fallbacks) = shop_policies e p has in
    let second = only_member f (subst (λ fs. Memᴰ (some f) fs) fallbacks m) in
    rw (first, second) (omega arith)

edge_rank_low : (e : EdgeRef) → edge_rank e ≤ 1
edge_rank_low e = ground arith

execute-Ends_example :
    (r : Outcome × (List (Event ℤ) × ℕ)) × ((execute whole still shop_heap no_faults 1 call_plan
          (pos 0)
          7
        ≡ some r)
      × (open_spans 0 (r.1.0) ≡ some 0))
execute-Ends_example =
    execute-Ends whole still shop_heap no_faults edge_rank shop_ranked 1 edge_rank_low call_plan
      (pos 0) 7

-- A policy of which the first fallback fails, and the second succeeds.
abbrev shop_policy : RecoveryPolicy
shop_policy = record {
  fallback = some 1 ∷ some 0 ∷ [];
  on_exhausted = ExhaustedAction.return_default;
  default_response = none;
}

abbrev refused : Outcome
refused = outcome false (pos 503) "connection_refused" (pos 20)

abbrev second_luck : Option EdgeRef → ℤ → Exec ℕ ℕ Outcome
second_luck none at = return refused
second_luck (some e) at = return (if e == 1 then refused else outcome true (pos 206) "" (pos 5))

abbrev by_fallback : Outcome
by_fallback = record (outcome true (pos 206) "" (pos 45)) {
  primary_failed = true;
  fallback_used = some 0;
  fallback_attempts = some 1 ∷ [];
}

apply_recovery_lem_example :
    (by_fallback.primary_failed ≡ true)
    × (RecoveredBy second_luck
          (pos 0)
          (some 1 ∷ some 0 ∷ [])
          (record refused { primary_failed = true })
          7
          by_fallback
        ⊎ Exhausted second_luck
            (pos 0)
            (some 1 ∷ some 0 ∷ [])
            ExhaustedAction.return_default
            (record refused { primary_failed = true })
            7
            by_fallback)
unfolding apply_recovery recover exhaust
apply_recovery_lem_example =
    apply_recovery_lem second_luck (pos 0) shop_policy refused 7 (by_fallback, ([], 7)) refl
