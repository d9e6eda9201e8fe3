-- ===== src/Topology/Parse/Lookup.antt =====
-- topology/parse.go: the calls, steps and fault targets, whose references are looked up. A joined error
-- is the list of its parts, each the path of a ParseError.
pub mod First
use xk6_otel_gen.Prelude.{
  ◌≡◌, refl, is_empty, false, Bool-cases, inl, inr, String, Bool, false, ◌&&◌, ◌||◌, Option, none,
  some, List, [], ◌∷◌, str_eq, if◌then◌else◌,
}
use xk6_otel_gen.Prelude.Text.{cut}
use xk6_otel_gen.Topology.Types.{
  Heap, Schema, CallNode, CallNodes, ServiceRef, OperationRef, EdgeRef,
}
use xk6_otel_gen.Topology.Errors.{FieldPath, ◌/ₖ◌}
use xk6_otel_gen.Topology.Graph.{get, eq_ref}

abbrev pub ParseErrors : Type 0
ParseErrors = List FieldPath

-- A value or an error.
pub data Parsed {ℓ} (A : Type ℓ) : Type ℓ where
  ok : A → Parsed A
  failed : ParseErrors → Parsed A

-- newParseError
abbrev pub parse_error {ℓ} : {A : Type ℓ} → FieldPath → Parsed A
parse_error path = Parsed.failed (path ∷ [])

-- The value, unless errors.Join of the collected errors is an error.
abbrev pub unless_failed {ℓ} : {A : Type ℓ} → ParseErrors → A → Parsed A
unless_failed [] a = Parsed.ok a
unless_failed (e ∷ es) a = Parsed.failed (e ∷ es)

abbrev pub errors_of {ℓ} : {A : Type ℓ} → Parsed A → ParseErrors
errors_of (Parsed.ok a) = []
errors_of (Parsed.failed es) = es

abbrev two_names : FieldPath → Option (String × String) → Parsed (String × String)
two_names path none = parse_error path
two_names path (some (service, operation)) =
    if str_eq service "" || str_eq operation ""
    then parse_error path
    else Parsed.ok (service, operation)

unfoldable pub parse_operation_ref : String → FieldPath → Parsed (String × String)
parse_operation_ref spec path = two_names path (cut "." spec)

abbrev pub or_else {ℓ} : {A : Type ℓ} → Option A → Option A → Option A
or_else none later = later
or_else (some a) later = some a

-- An error that says something.
abbrev pub Reports {ℓ} : {A : Type ℓ} → Parsed A → Type 0
Reports (Parsed.ok a) = Unit
Reports (Parsed.failed es) = is_empty es ≡ false

abbrev found : FieldPath → Option OperationRef → Parsed OperationRef
found path none = parse_error (path /ₖ "operation")
found path (some op) = Parsed.ok op

found-Reports : (path : FieldPath) (op : Option OperationRef) → Reports (found path op)
found-Reports path none = refl
found-Reports path (some op) = tt

module _ {F : Type 0} (h : Heap F) where
  unfoldable lookup_in_service : Option ServiceRef → String → FieldPath → Parsed OperationRef
  lookup_in_service none name path = parse_error (path /ₖ "service")
  lookup_in_service (some svc) name path = found path (get name (h.service svc).operations)

  -- lookupOperationAtPath, whose errors are those of lookupOperation at the caller's path.
  unfoldable pub lookup_operation_at_path :
      Schema F → String → String → FieldPath → Parsed OperationRef
  unfolding lookup_in_service
  lookup_operation_at_path s service operation path =
      if str_eq service ""
      then parse_error (path /ₖ "service")
      else if str_eq operation ""
      then parse_error (path /ₖ "operation")
      else lookup_in_service (get service s.services) operation path

  in_service-Reports :
      (svc : Option ServiceRef) (name : String) (path : FieldPath)
      → Reports (lookup_in_service svc name path)
  unfolding lookup_in_service
  in_service-Reports none name path = refl
  in_service-Reports (some svc) name path = found-Reports path (get name (h.service svc).operations)

  pub lookup-Reports :
      (s : Schema F) (service operation : String) (path : FieldPath)
      → Reports (lookup_operation_at_path s service operation path)
  unfolding lookup_operation_at_path
  lookup-Reports s service operation path = elim (Bool-cases (str_eq service "")) [
    | inl unnamed ↦ rw unnamed refl
    | inr named ↦ elim (Bool-cases (str_eq operation "")) [
      | inl unnamed ↦ rw (named, unnamed) refl
      | inr both_named ↦
          rw (named, both_named) (in_service-Reports (get service s.services) operation path)
    ]
  ]

  abbrev pub joins : OperationRef → OperationRef → EdgeRef → Bool
  joins from to e = eq_ref (h.edge e).source (some from) && eq_ref (h.edge e).target (some to)

  unfoldable pub find_fallback :
      OperationRef → OperationRef → List (Option EdgeRef) → Option EdgeRef
  find_fallback from to [] = none
  find_fallback from to (none ∷ rest) = find_fallback from to rest
  find_fallback from to (some e ∷ rest) =
      let later = find_fallback from to rest in if joins from to e then some e else later

  unfoldable pub find_at_edge : OperationRef → OperationRef → EdgeRef → Option EdgeRef
  unfolding find_fallback
  find_at_edge from to e = if joins from to e then some e else elim (h.edge e).on_failure [
    | none ↦ none
    | some policy ↦ find_fallback from to policy.fallback
  ]

  unfoldable mutual
    unfolding find_at_edge

    pub find_edge_in_calls : OperationRef → OperationRef → CallNodes → Option EdgeRef
    find_edge_in_calls from to CallNodes.end = none
    find_edge_in_calls from to (CallNodes.cons n ns) =
        or_else (find_edge_in_call from to n) (find_edge_in_calls from to ns)

    -- One round of the loop of findEdgeInCalls.
    pub find_edge_in_call : OperationRef → OperationRef → CallNode → Option EdgeRef
    find_edge_in_call from to CallNode.null = none
    find_edge_in_call from to (CallNode.call none parallel) = find_edge_in_calls from to parallel
    find_edge_in_call from to (CallNode.call (some e) parallel) =
        or_else (find_at_edge from to e) (find_edge_in_calls from to parallel)

  -- A nil operation, at which the source panics, is passed over: the parser makes none.
  unfoldable pub find_edge_in_operations :
      OperationRef → OperationRef → List (String × Option OperationRef) → Option EdgeRef
  unfolding find_edge_in_calls
  find_edge_in_operations from to [] = none
  find_edge_in_operations from to ((name, none) ∷ rest) = find_edge_in_operations from to rest
  find_edge_in_operations from to ((name, some op) ∷ rest) =
      or_else (find_edge_in_calls from to (h.operation op).calls)
        (find_edge_in_operations from to rest)

  unfoldable pub find_edge_in_services :
      OperationRef → OperationRef → List (String × Option ServiceRef) → Option EdgeRef
  unfolding find_edge_in_operations
  find_edge_in_services from to [] = none
  find_edge_in_services from to ((id, none) ∷ rest) = find_edge_in_services from to rest
  find_edge_in_services from to ((id, some svc) ∷ rest) =
      or_else (find_edge_in_operations from to (h.service svc).operations)
        (find_edge_in_services from to rest)

  unfoldable pub find_edge : Schema F → OperationRef → OperationRef → Option EdgeRef
  unfolding find_edge_in_services
  find_edge s from to = find_edge_in_services from to s.services
