-- ===== src/Topology/Parse/Lookup/First.antt =====
-- findEdge of topology/parse.go takes the first edge with the given ends, of those that
-- forEachOutgoingEdge of topology/validate.go visits.
use xk6_otel_gen.Prelude.{
  String, ◌≡◌, refl, ap, true, Option, none, some, List, [], ◌∷◌, ◌++◌, All, Bool-cases, inl, inr,
  if◌then◌else◌,
}
use mathlib.Core.List.{Memᴰ}
use xk6_otel_gen.Topology.Types.{
  Heap, Schema, CallNode, CallNodes, ServiceRef, OperationRef, EdgeRef, RecoveryPolicy,
}
use xk6_otel_gen.Topology.Graph.{
  collect, of_option, fallback_edges, edges_in_calls, edges_in_call, service_operations,
  all_schema_operations, outgoing_edges,
}
use xk6_otel_gen.Topology.Dag.Degrees.{collect-append}
use xk6_otel_gen.Topology.Parse.Lookup.{
  or_else, joins, find_fallback, find_at_edge, find_edge_in_calls, find_edge_in_call,
  find_edge_in_operations, find_edge_in_services, find_edge,
}

module _ {F : Type 0} (h : Heap F) (from to : OperationRef) where
  -- The first edge of a list with the given ends.
  unfoldable pub first_joining : List EdgeRef → Option EdgeRef
  first_joining [] = none
  first_joining (e ∷ es) =
      let later = first_joining es in if joins h from to e then some e else later

  first_joining-append :
      (xs ys : List EdgeRef)
      → first_joining (xs ++ ys) ≡ or_else (first_joining xs) (first_joining ys)
  unfolding first_joining
  first_joining-append [] ys = refl
  first_joining-append (x ∷ xs) ys = elim (Bool-cases (joins h from to x)) [
    | inl here ↦ rw here refl
    | inr later ↦ rw later (first_joining-append xs ys)
  ]

  fallback_lem :
      (fs : List (Option EdgeRef))
      → find_fallback h from to fs ≡ first_joining (collect of_option fs)
  unfolding find_fallback first_joining collect
  fallback_lem [] = refl
  fallback_lem (none ∷ fs) = fallback_lem fs
  fallback_lem (some e ∷ fs) = rw (fallback_lem fs) refl

  at_edge_lem : (e : EdgeRef) → find_at_edge h from to e ≡ first_joining (e ∷ fallback_edges h e)
  unfolding find_at_edge first_joining fallback_edges
  at_edge_lem e = in_policy (h.edge e).on_failure
    where
      in_policy :
          (policy : Option RecoveryPolicy)
          → (if joins h from to e
              then some e
              else elim policy [ none ↦ none | some p ↦ find_fallback h from to p.fallback ])
            ≡ (if joins h from to e
                then some e
                else first_joining
                    (elim policy [ none ↦ [] | some p ↦ collect of_option p.fallback ]))
      in_policy none = refl
      in_policy (some p) = rw (fallback_lem p.fallback) refl

  mutual
    unfolding find_edge_in_calls edges_in_calls first_joining

    calls_lem :
        (ns : CallNodes) → find_edge_in_calls h from to ns ≡ first_joining (edges_in_calls h ns)
    calls_lem CallNodes.end = refl
    calls_lem (CallNodes.cons n ns) =
        rw
          (first_joining-append (edges_in_call h n) (edges_in_calls h ns), call_lem n, calls_lem ns)
          refl

    call_lem : (n : CallNode) → find_edge_in_call h from to n ≡ first_joining (edges_in_call h n)
    call_lem CallNode.null = refl
    call_lem (CallNode.call none parallel) = calls_lem parallel
    call_lem (CallNode.call (some e) parallel) =
        rw
          (
            first_joining-append (e ∷ fallback_edges h e) (edges_in_calls h parallel),
            at_edge_lem e,
            calls_lem parallel,
          )
          refl

  abbrev edges_of : OperationRef → List EdgeRef
  edges_of op = edges_in_calls h (h.operation op).calls

  operations_lem :
      (ops : List (String × Option OperationRef))
      → find_edge_in_operations h from to ops
        ≡ first_joining (collect edges_of (collect (λ entry. of_option entry.1) ops))
  unfolding find_edge_in_operations collect
  operations_lem [] = unfold first_joining in refl
  operations_lem ((name, none) ∷ ops) = operations_lem ops
  operations_lem ((name, some op) ∷ ops) =
      rw
        (
          first_joining-append (edges_of op)
              (collect edges_of (collect (λ entry. of_option entry.1) ops)),
          calls_lem (h.operation op).calls,
          operations_lem ops,
        )
        refl

  services_lem :
      (svcs : List (String × Option ServiceRef))
      → find_edge_in_services h from to svcs
        ≡ first_joining (collect edges_of (collect (service_operations h) svcs))
  unfolding find_edge_in_services collect service_operations
  services_lem [] = unfold first_joining in refl
  services_lem ((id, none) ∷ svcs) = services_lem svcs
  services_lem ((id, some svc) ∷ svcs) =
      let ops = collect (λ entry. of_option entry.1) (h.service svc).operations in
      rw
        (
          collect-append edges_of ops (collect (service_operations h) svcs),
          first_joining-append (collect edges_of ops)
              (collect edges_of (collect (service_operations h) svcs)),
          operations_lem (h.service svc).operations,
          services_lem svcs,
        )
        refl

  find_edge-first_joining :
      (s : Schema F) → find_edge h s from to ≡ first_joining (outgoing_edges h s)
  unfolding find_edge outgoing_edges all_schema_operations
  find_edge-first_joining s = services_lem s.services

  first_joining-only :
      (e : EdgeRef) (es : List EdgeRef)
      → joins h from to e ≡ true
      → All (λ x. joins h from to x ≡ true → x ≡ e) es
      → Memᴰ e es
      → first_joining es ≡ some e
  unfolding first_joining
  first_joining-only e [] joined only found = elim found [ ]
  first_joining-only e (x ∷ xs) joined only found = elim (Bool-cases (joins h from to x)) [
    | inl here ↦ rw here (ap some (only.0 here))
    | inr other ↦ elim found [
      | Memᴰ.head same ↦ absurd (cc (same, joined, other))
      | Memᴰ.tail later ↦ rw other (first_joining-only e xs joined only.1 later)
    ]
  ]

  -- The only edge of a schema with its ends is found.
  pub find_edge-only :
      (s : Schema F) (e : EdgeRef)
      → joins h from to e ≡ true
      → All (λ x. joins h from to x ≡ true → x ≡ e) (outgoing_edges h s)
      → Memᴰ e (outgoing_edges h s)
      → find_edge h s from to ≡ some e
  find_edge-only s e joined only found =
      rw (find_edge-first_joining s) (first_joining-only e (outgoing_edges h s) joined only found)
