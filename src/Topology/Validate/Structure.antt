-- ===== src/Topology/Validate/Structure.antt =====
-- The structural rules of topology/validate.go but the cycle check, which is in Topology/Dag.
use xk6_otel_gen.Prelude.{
  ℕ, suc, String, Bool, true, false, not, Option, none, some, List, [], ◌∷◌, ◌++◌, str_eq,
  if◌then◌else◌,
}
use xk6_otel_gen.Topology.Types.{
  Heap, Schema, Journey, CallNode, CallNodes, Step, Steps, ServiceRef, OperationRef, EdgeRef,
}
use xk6_otel_gen.Topology.Errors.{FieldPath, ValidationError, one_error, key, ◌/ₖ◌, ◌/ᵢ◌}
use xk6_otel_gen.Topology.Graph.{
  collect, collect_from, get, eq_ref, in_set, is_some, all_schema_operations,
}

abbrev pub services_path : String → FieldPath
services_path id = key "services" ∷ key id ∷ []

abbrev pub calls_path : String → String → FieldPath
calls_path id name = services_path id /ₖ "operations" /ₖ name /ₖ "calls"

-- len(list) > 0
abbrev pub has_calls : CallNodes → Bool
has_calls CallNodes.end = false
has_calls (CallNodes.cons n ns) = true

abbrev pub has_steps : Steps → Bool
has_steps Steps.end = false
has_steps (Steps.cons n ns) = true

-- hasA == hasB
abbrev pub same : Bool → Bool → Bool
same true b = b
same false b = not b

module _ {F : Type 0} (h : Heap F) where
  unfoldable pub check_service_key : String × Option ServiceRef → List ValidationError
  check_service_key (id, none) = one_error (services_path id) "R-STR-1"
  check_service_key (id, some svc) =
      if str_eq (h.service svc).name id then [] else one_error (services_path id) "R-STR-1"

  unfoldable pub validate_map_key_consistency : Option (Schema F) → List ValidationError
  unfolding collect check_service_key
  validate_map_key_consistency none = one_error (key "schema" ∷ []) "R-STR-1"
  validate_map_key_consistency (some s) = collect check_service_key s.services

  unfoldable pub check_back_pointers :
      String → ServiceRef → String × Option OperationRef → List ValidationError
  check_back_pointers id svc (name, none) =
      one_error (services_path id /ₖ "operations" /ₖ name) "R-STR-2"
  check_back_pointers id svc (name, some op) =
      let path = services_path id /ₖ "operations" /ₖ name in
      let o = h.operation op in
      (if eq_ref o.service (some svc) then [] else one_error path "R-STR-2")
      ++ ((if str_eq o.name name then [] else one_error path "R-STR-2")
          ++ (if eq_ref (get o.name (h.service svc).operations) (some op)
              then []
              else one_error path "R-STR-2"))

  unfoldable pub check_service_back_pointers : String × Option ServiceRef → List ValidationError
  unfolding check_back_pointers
  check_service_back_pointers (id, none) = []
  check_service_back_pointers (id, some svc) =
      collect (check_back_pointers id svc) (h.service svc).operations

  unfoldable pub validate_back_pointers : Option (Schema F) → List ValidationError
  unfolding collect check_service_back_pointers get
  validate_back_pointers none = []
  validate_back_pointers (some s) = collect check_service_back_pointers s.services

  -- A loop over the operations of a schema that looks at the calls of each.
  module _ (check : CallNodes → FieldPath → List ValidationError) where
    unfoldable pub check_operation_calls :
        String → String × Option OperationRef → List ValidationError
    check_operation_calls id (name, none) = []
    check_operation_calls id (name, some op) = check (h.operation op).calls (calls_path id name)

    unfoldable pub check_service_calls : String × Option ServiceRef → List ValidationError
    unfolding collect check_operation_calls
    check_service_calls (id, none) = []
    check_service_calls (id, some svc) =
        collect (check_operation_calls id) (h.service svc).operations

    unfoldable pub for_each_calls : Schema F → List ValidationError
    unfolding collect check_service_calls
    for_each_calls s = collect check_service_calls s.services

  unfoldable pub validate_edge_endpoints :
      List OperationRef → FieldPath → Option EdgeRef → List ValidationError
  validate_edge_endpoints ops path none = one_error path "R-STR-3"
  validate_edge_endpoints ops path (some e) =
      (if in_set ops (h.edge e).source then [] else one_error (path /ₖ "from") "R-STR-3")
      ++ (if in_set ops (h.edge e).target then [] else one_error (path /ₖ "to") "R-STR-3")

  unfoldable pub fallback_endpoints : List OperationRef → FieldPath → EdgeRef → List ValidationError
  unfolding collect_from validate_edge_endpoints
  fallback_endpoints ops path e = elim (h.edge e).on_failure [
    | none ↦ []
    | some policy ↦
        collect_from 0
          (λ j fallback.
            validate_edge_endpoints ops (path /ₖ "on_failure" /ₖ "fallback" /ᵢ j) fallback)
          policy.fallback
  ]

  unfoldable mutual
    unfolding validate_edge_endpoints fallback_endpoints

    pub no_orphan_calls : List OperationRef → FieldPath → ℕ → CallNodes → List ValidationError
    no_orphan_calls ops path i CallNodes.end = []
    no_orphan_calls ops path i (CallNodes.cons n ns) =
        no_orphan_call ops (path /ᵢ i) n ++ no_orphan_calls ops path (suc i) ns

    pub no_orphan_call : List OperationRef → FieldPath → CallNode → List ValidationError
    no_orphan_call ops path CallNode.null = []
    no_orphan_call ops path (CallNode.call none parallel) =
        no_orphan_calls ops (path /ₖ "parallel") 0 parallel
    no_orphan_call ops path (CallNode.call (some e) parallel) =
        validate_edge_endpoints ops path (some e)
        ++ (fallback_endpoints ops path e ++ no_orphan_calls ops (path /ₖ "parallel") 0 parallel)

  unfoldable pub validate_no_orphan_references : Option (Schema F) → List ValidationError
  unfolding for_each_calls no_orphan_calls
  validate_no_orphan_references none = []
  validate_no_orphan_references (some s) =
      for_each_calls (λ calls path. no_orphan_calls (all_schema_operations h s) path 0 calls) s

  -- A parallel group without entries adds no error, whether or not the code descends into it.
  unfoldable mutual
    pub call_variants : FieldPath → ℕ → CallNodes → List ValidationError
    call_variants path i CallNodes.end = []
    call_variants path i (CallNodes.cons n ns) =
        call_variant (path /ᵢ i) n ++ call_variants path (suc i) ns

    pub call_variant : FieldPath → CallNode → List ValidationError
    call_variant path CallNode.null = one_error path "R-STR-7"
    call_variant path (CallNode.call edge parallel) =
        (if same (is_some edge) (has_calls parallel) then one_error path "R-STR-7" else [])
        ++ call_variants (path /ₖ "parallel") 0 parallel

  unfoldable pub validate_call_node_variants : Option (Schema F) → List ValidationError
  unfolding for_each_calls call_variants
  validate_call_node_variants none = []
  validate_call_node_variants (some s) = for_each_calls (λ calls path. call_variants path 0 calls) s

  unfoldable mutual
    pub steps_reachable : List OperationRef → FieldPath → ℕ → Steps → List ValidationError
    steps_reachable ops path i Steps.end = []
    steps_reachable ops path i (Steps.cons n ns) =
        step_reachable ops (path /ᵢ i) n ++ steps_reachable ops path (suc i) ns

    pub step_reachable : List OperationRef → FieldPath → Step → List ValidationError
    step_reachable ops path Step.null = one_error path "R-STR-5"
    step_reachable ops path (Step.step op parallel) =
        (if same (is_some op) (has_steps parallel) then one_error path "R-STR-5" else [])
        ++ ((if is_some op
              then (if in_set ops op then [] else one_error (path /ₖ "op") "R-STR-5")
              else [])
            ++ steps_reachable ops (path /ₖ "parallel") 0 parallel)

  unfoldable pub check_journey_steps :
      List OperationRef → String × Option (Journey F) → List ValidationError
  unfolding steps_reachable
  check_journey_steps ops (name, none) = one_error (key "journeys" ∷ key name ∷ []) "R-STR-5"
  check_journey_steps ops (name, some j) =
      steps_reachable ops (key "journeys" ∷ key name ∷ key "steps" ∷ []) 0 j.steps

  unfoldable pub validate_journey_reachability : Option (Schema F) → List ValidationError
  unfolding collect check_journey_steps
  validate_journey_reachability none = []
  validate_journey_reachability (some s) =
      collect (check_journey_steps (all_schema_operations h s)) s.journeys
