-- ===== src/Topology/Dag.antt =====
-- validateDAG of topology/validate.go: Kahn's algorithm over the operations of a schema. The map from
-- operations to degrees is the list of its entries, and the loop over the queue takes fuel.
pub mod Degrees
pub mod Invariant
pub mod Complete
pub mod Acyclic
use xk6_otel_gen.Prelude.{
  ℕ, zero, suc, ◌+◌, Bool, Option, none, some, List, [], ◌∷◌, ◌++◌, map, length, ◌==◌,
  if◌then◌else◌,
}
use xk6_otel_gen.Prelude.Int.{ℤ, pos, ◌+ℤ◌, ◌-ℤ◌, eq_ℤ, ltb_ℤ}
use xk6_otel_gen.Topology.Types.{Heap, Schema, OperationRef, EdgeRef}
use xk6_otel_gen.Topology.Errors.{ValidationError, one_error, key}
use xk6_otel_gen.Topology.Graph.{all_schema_operations, outgoing_edges, outgoing_targets}

abbrev pub InDegree : Type 0
InDegree = List (OperationRef × ℤ)

unfoldable pub degree : OperationRef → InDegree → Option ℤ
degree op [] = none
degree op ((k, d) ∷ m) = if k == op then some d else degree op m

-- m[op] = d
unfoldable pub assign : OperationRef → ℤ → InDegree → InDegree
assign op d [] = (op, d) ∷ []
assign op d ((k, e) ∷ m) = if k == op then (k, d) ∷ m else (k, e) ∷ assign op d m

abbrev pub operations_of : InDegree → List OperationRef
operations_of m = map (λ entry. entry.0) m

unfoldable pub zero_degrees : InDegree → List OperationRef → InDegree
zero_degrees m [] = m
zero_degrees m (op ∷ ops) = zero_degrees (assign op (pos 0) m) ops

-- if _, ok := m[op]; ok { m[op]++ }
unfoldable pub increment : Option OperationRef → InDegree → InDegree
unfolding degree
increment none m = m
increment (some op) m = elim (degree op m) [ none ↦ m | some d ↦ assign op (d +ℤ pos 1) m ]

-- The first part of the queue: the operations of degree 0.
unfoldable pub ready : InDegree → List OperationRef
ready [] = []
ready ((op, d) ∷ m) = if eq_ℤ d (pos 0) then op ∷ ready m else ready m

abbrev pub Frontier : Type 0
Frontier = InDegree × List OperationRef

-- The body of the inner loop, over the targets of the operation that left the queue.
unfoldable pub relax : Frontier → OperationRef → Frontier
relax (m, queue) child = elim (degree child m) [
  | none ↦ (m, queue)
  | some d ↦ (
    assign child (d -ℤ pos 1) m,
    if eq_ℤ (d -ℤ pos 1) (pos 0) then queue ++ child ∷ [] else queue,
  )
]

unfoldable pub relax_all : Frontier → List OperationRef → Frontier
relax_all s [] = s
relax_all s (child ∷ rest) = relax_all (relax s child) rest

-- The operations of a positive degree, which the message of the error names.
unfoldable pub unvisited : InDegree → List OperationRef
unvisited [] = []
unvisited ((op, d) ∷ m) = if ltb_ℤ (pos 0) d then op ∷ unvisited m else unvisited m

module _ {F : Type 0} (h : Heap F) where
  unfoldable pub count_edges : InDegree → List EdgeRef → InDegree
  unfolding increment
  count_edges m [] = m
  count_edges m (e ∷ es) = count_edges (increment (h.edge e).target m) es

  unfoldable pub in_degrees : Schema F → InDegree
  unfolding zero_degrees count_edges
  in_degrees s = count_edges (zero_degrees [] (all_schema_operations h s)) (outgoing_edges h s)

  -- The loop over the queue: the number of visited operations, or `none` when the fuel runs out.
  unfoldable pub drain : ℕ → Frontier → ℕ → Option ℕ
  drain fuel (m, []) visited = some visited
  drain zero (m, op ∷ queue) visited = none
  drain (suc fuel) (m, op ∷ queue) visited =
      drain fuel (relax_all (m, queue) (outgoing_targets h op)) (visited + 1)

  abbrev visit_count : InDegree → Option ℕ
  visit_count m = drain (length m) (m, ready m) 0

  unfoldable pub validate_dag : Option (Schema F) → Option (List ValidationError)
  validate_dag none = some []
  validate_dag (some s) =
      let m = in_degrees s in
      elim (visit_count m) [
        | none ↦ none
        | some visited ↦
            some
              (if visited == length m then [] else one_error (key "operation graph" ∷ []) "R-STR-4")
      ]
