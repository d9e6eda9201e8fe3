-- ===== src/Topology/Validate/Ranges.antt =====
-- validateDomainRanges of topology/validate.go.
use xk6_otel_gen.Prelude.{
  ℕ, suc, String, not, ◌&&◌, Option, none, some, List, [], ◌∷◌, ◌++◌, str_eq, is_empty,
}
use xk6_otel_gen.Prelude.Int.{pos, ltb_ℤ}
use xk6_otel_gen.Topology.Float.{Float64}
use xk6_otel_gen.Topology.Types.{
  Heap, Schema, Journey, FaultSpec, ServiceRef, OperationRef, EdgeRef, CallNode, CallNodes,
}
use xk6_otel_gen.Topology.Errors.{FieldPath, ValidationError, one_error, key, ◌/ₖ◌, ◌/ᵢ◌}
use xk6_otel_gen.Topology.Graph.{collect, collect_from}
use xk6_otel_gen.Topology.Validate.Structure.{services_path, calls_path, has_steps}
use xk6_otel_gen.Topology.Validate.Domain.{
  report, valid_service_kind, valid_fault_kind, is_latency_inflation, valid_probability,
  validate_observable_metric_spec, validate_operation_domain, validate_fault_schedule,
  validate_edge_domain,
}

-- An edge and the path that the traversal hands over with it.
abbrev pub Located : Type 0
Located = Option EdgeRef × FieldPath

module _ {F : Type 0} (h : Heap F) where
  unfoldable pub located_fallbacks : FieldPath → EdgeRef → List Located
  located_fallbacks path e = elim (h.edge e).on_failure [
    | none ↦ []
    | some policy ↦
        collect_from 0 (λ j fallback. (fallback, path /ₖ "on_failure" /ₖ "fallback" /ᵢ j) ∷ [])
          policy.fallback
  ]

  unfoldable mutual
    unfolding located_fallbacks

    pub located_calls : FieldPath → ℕ → CallNodes → List Located
    located_calls path i CallNodes.end = []
    located_calls path i (CallNodes.cons n ns) =
        located_call (path /ᵢ i) n ++ located_calls path (suc i) ns

    pub located_call : FieldPath → CallNode → List Located
    located_call path CallNode.null = []
    located_call path (CallNode.call none parallel) = located_calls (path /ₖ "parallel") 0 parallel
    located_call path (CallNode.call (some e) parallel) =
        (some e, path) ∷ (located_fallbacks path e ++ located_calls (path /ₖ "parallel") 0 parallel)

  unfoldable pub located_in_operation : String → String × Option OperationRef → List Located
  unfolding located_calls
  located_in_operation id (name, none) = []
  located_in_operation id (name, some op) =
      located_calls (calls_path id name) 0 (h.operation op).calls

  unfoldable pub located_in_service : String × Option ServiceRef → List Located
  unfolding located_in_operation
  located_in_service (id, none) = []
  located_in_service (id, some svc) = collect (located_in_operation id) (h.service svc).operations

  -- forEachOutgoingEdgeWithPath
  unfoldable pub located_edges : Schema F → List Located
  unfolding located_in_service
  located_edges s = collect located_in_service s.services

module _ (fl : Float64) where
  open fl use {F, zero_f, lt_f, le_f}

  module _ (h : Heap F) where
    unfoldable pub operation_ranges :
        FieldPath → String × Option OperationRef → List ValidationError
    operation_ranges path (name, none) = []
    operation_ranges path (name, some op) =
        validate_operation_domain fl (path /ₖ "operations" /ₖ name) (h.operation op)

    unfoldable pub service_ranges : String × Option ServiceRef → List ValidationError
    service_ranges (id, none) = []
    service_ranges (id, some svc) =
        let path = services_path id in
        let v = h.service svc in
        report (ltb_ℤ v.replicas (pos 1)) (path /ₖ "replicas") "D-1"
        ++ (report (not (valid_service_kind v.kind)) (path /ₖ "kind") "D-ENUM"
            ++ (report (is_empty v.operations) (path /ₖ "operations") "D-12"
                ++ (collect_from 0
                      (λ i m. validate_observable_metric_spec fl (path /ₖ "metrics" /ᵢ i) m)
                      v.metrics
                    ++ collect (operation_ranges path) v.operations)))

    unfoldable pub edge_ranges : Located → List ValidationError
    edge_ranges (none, path) = []
    edge_ranges (some e, path) = validate_edge_domain fl path (h.edge e)

    unfoldable pub journey_ranges : String × Option (Journey F) → List ValidationError
    journey_ranges (name, none) = []
    journey_ranges (name, some j) =
        let path = key "journeys" ∷ key name ∷ [] in
        report (not (str_eq j.name name)) (path /ₖ "name") "D-JOURNEY"
        ++ (report (le_f j.weight zero_f) (path /ₖ "weight") "D-10"
            ++ report (not (has_steps j.steps)) (path /ₖ "steps") "D-11")

    unfoldable pub fault_ranges : ℕ → FaultSpec F → List ValidationError
    fault_ranges i fault =
        let path = key "faults" ∷ [] /ᵢ i in
        report (not (valid_fault_kind fault.kind)) (path /ₖ "kind") "D-ENUM"
        ++ (report (not (valid_probability fl fault.severity.probability))
              (path /ₖ "severity" /ₖ "probability") "D-8"
            ++ (report (is_latency_inflation fault.kind && le_f fault.severity.multiplier zero_f)
                  (path /ₖ "severity" /ₖ "multiplier") "D-9"
                ++ validate_fault_schedule fl (path /ₖ "schedule") 0 none fault.schedule))

    unfoldable pub validate_domain_ranges : Option (Schema F) → List ValidationError
    validate_domain_ranges none =
        one_error (key "services" ∷ []) "D-13" ++ one_error (key "journeys" ∷ []) "D-14"
    validate_domain_ranges (some s) =
        report (is_empty s.services) (key "services" ∷ []) "D-13"
        ++ (report (is_empty s.journeys) (key "journeys" ∷ []) "D-14"
            ++ (collect service_ranges s.services
                ++ (collect edge_ranges (located_edges h s)
                    ++ (collect journey_ranges s.journeys
                        ++ collect_from 0 fault_ranges s.faults))))
