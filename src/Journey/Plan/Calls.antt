-- ===== src/Journey/Plan/Calls.antt =====
-- buildCallNode of journey/plan.go on calls in which validation finds no error: if building the
-- operations that they lead to succeeds, building the calls does.
use xk6_otel_gen.Prelude.{
  ℕ, suc, ◌+◌, ◌<◌, ◌≡◌, refl, Option, none, some, List, [], ◌∷◌, ◌++◌, count, count-append,
  append-eq-nil, arith, Option-cases, inl, inr,
}
use xk6_otel_gen.Topology.Types.{Heap, CallNode, CallNodes, OperationRef, EdgeRef}
use xk6_otel_gen.Topology.Errors.{FieldPath, ◌/ᵢ◌}
use xk6_otel_gen.Topology.Graph.{collect, of_option, edges_in_calls, edges_in_call}
use xk6_otel_gen.Topology.Dag.Degrees.{arrivals, collect-append}
use xk6_otel_gen.Topology.Validate.Structure.{
  no_orphan_calls, no_orphan_call, call_variants, call_variant, validate_edge_endpoints,
}
use xk6_otel_gen.Topology.Validate.Quiet.{contains-count}
use xk6_otel_gen.Journey.Plan.{
  Node, Nodes, Label, ok, Build, Visiting, build_edge, build_call_node, build_parallel_calls,
  build_calls, ◌>>=◌, return, on_clone, virtual_info,
}

-- `m` succeeds and leaves the map of its caller as it was.
abbrev pub Succeeds : {A : Type 0} → Visiting → Build A → Type 0
Succeeds {A} visiting m = (a : A) × (m visiting ≡ (ok a, visiting))

pub bind-Succeeds :
    {A B : Type 0} {visiting : Visiting} (m : Build A) (f : A → Build B)
    → Succeeds visiting m
    → ((a : A) → Succeeds visiting (f a))
    → Succeeds visiting (m >>= f)
bind-Succeeds m f (a, e) then_f = let (b, e') = then_f a in (b, rw e e')

pub clone-Succeeds :
    {A : Type 0} {visiting : Visiting} (m : Build A)
    → Succeeds visiting m
    → Succeeds visiting (on_clone m)
clone-Succeeds m (a, e) = (a, rw e)

module _ {F : Type 0} (h : Heap F) (ops : List ℕ) (rank : ℕ → ℕ) where
  -- Every call leads to an operation of a rank below `bound`.
  abbrev pub Below : ℕ → CallNodes → Type 0
  Below bound calls =
      (v : ℕ) → 0 < count v ops → 0 < count v (arrivals h (edges_in_calls h calls)) → rank v < bound

  abbrev BelowCall : ℕ → CallNode → Type 0
  BelowCall bound n =
      (v : ℕ) → 0 < count v ops → 0 < count v (arrivals h (edges_in_call h n)) → rank v < bound

  Below-cons :
      (bound : ℕ) (n : CallNode) (ns : CallNodes)
      → Below bound (CallNodes.cons n ns)
      → BelowCall bound n × Below bound ns
  unfolding edges_in_calls
  Below-cons bound n ns below =
      (λ v k m. below v k (split v (omega arith)), λ v k m. below v k (split v (omega arith)))
    where
      split :
          (v : ℕ)
          → 0
            < count v (arrivals h (edges_in_call h n)) + count v (arrivals h (edges_in_calls h ns))
          → 0 < count v (arrivals h (edges_in_call h n ++ edges_in_calls h ns))
      split v m = rw collect-append (
          omega (
            arith,
            count-append v (arrivals h (edges_in_call h n)) (arrivals h (edges_in_calls h ns)),
          ))

  first_arrival :
      (e v : ℕ)
      → (h.edge e).target ≡ some v
      → (es : List EdgeRef) → 0 < count v (arrivals h (e ∷ es))
  unfolding collect
  first_arrival e v found es =
      ground (arith, count-append v (of_option (h.edge e).target) (arrivals h es))

  module _ (bound : ℕ) (visiting : Visiting)
      (build_operation : OperationRef → Option EdgeRef → List Label → Build (Node F))
      (builds : (v : ℕ) (edge : Option EdgeRef) (path : List Label)
        → 0 < count v ops
        → rank v < bound
        → Succeeds visiting (build_operation v edge path)) where
    build_edge-Succeeds :
        (e : EdgeRef) (fp : FieldPath) (path : List Label)
        → validate_edge_endpoints h ops fp (some e) ≡ []
        → ((v : ℕ) → 0 < count v ops → (h.edge e).target ≡ some v → rank v < bound)
        → Succeeds visiting (build_edge h build_operation e path)
    unfolding build_edge validate_edge_endpoints
    build_edge-Succeeds e fp path quiet below = elim (Option-cases (h.edge e).target) [
      | inl missing ↦ absurd (ground arith)
      | inr (v, found) ↦
          let member : 0 < count v ops = contains-count ops v (ground arith) in
          let (built, e') =
            builds v (some e) (path ++ Label.operation v ∷ []) member (below v member found) in
          (built, rw (found, build_edge) e')
    ]

    mutual
      unfolding build_call_node call_variants no_orphan_calls edges_in_calls

      build_call_node-Succeeds :
          (n : CallNode) (fp fp' : FieldPath) (path : List Label)
          → no_orphan_call h ops fp n ≡ []
          → call_variant h fp' n ≡ []
          → BelowCall bound n
          → Succeeds visiting (build_call_node h build_operation n path)
      build_call_node-Succeeds CallNode.null fp fp' path orphans variants below = absurd (cc)
      build_call_node-Succeeds (CallNode.call none CallNodes.end) fp fp' path orphans variants
            below =
          absurd (cc)
      build_call_node-Succeeds (CallNode.call (some e) CallNodes.end) fp fp' path orphans variants
            below =
          build_edge-Succeeds e fp path
            (append-eq-nil (validate_edge_endpoints h ops fp (some e)) _ orphans).0
            (λ v k found. below v k (first_arrival e v found _))
      build_call_node-Succeeds (CallNode.call (some e) (CallNodes.cons n ns)) fp fp' path orphans
            variants below =
          absurd (cc)
      build_call_node-Succeeds (CallNode.call none (CallNodes.cons n ns)) fp fp' path orphans
            variants below =
          bind-Succeeds (build_parallel_calls h build_operation 0 (CallNodes.cons n ns) path)
            (λ group. return (Node.node virtual_info group Nodes.end))
            (build_parallel_calls-Succeeds (CallNodes.cons n ns) _ _ 0 0 0 path orphans variants
              below)
            (λ group. (Node.node virtual_info group Nodes.end, refl))

      build_parallel_calls-Succeeds :
          (ns : CallNodes) (fp fp' : FieldPath) (i j k : ℕ) (path : List Label)
          → no_orphan_calls h ops fp i ns ≡ []
          → call_variants h fp' j ns ≡ []
          → Below bound ns
          → Succeeds visiting (build_parallel_calls h build_operation k ns path)
      build_parallel_calls-Succeeds CallNodes.end fp fp' i j k path orphans variants below =
          (Nodes.end, refl)
      build_parallel_calls-Succeeds (CallNodes.cons n ns) fp fp' i j k path orphans variants below =
          let (o, os) = append-eq-nil (no_orphan_call h ops (fp /ᵢ i) n) _ orphans in
          let (w, ws) = append-eq-nil (call_variant h (fp' /ᵢ j) n) _ variants in
          bind-Succeeds
            (on_clone (build_call_node h build_operation n (path ++ Label.parallel k ∷ [])))
            (λ child. build_parallel_calls h build_operation (suc k) ns path >>= λ rest.
              return (Nodes.cons child rest))
            (clone-Succeeds (build_call_node h build_operation n (path ++ Label.parallel k ∷ [])) (
              build_call_node-Succeeds n (fp /ᵢ i) (fp' /ᵢ j) (path ++ Label.parallel k ∷ []) o w
                (Below-cons bound n ns below).0))
            (λ child.
              bind-Succeeds (build_parallel_calls h build_operation (suc k) ns path)
                (λ rest. return (Nodes.cons child rest))
                (build_parallel_calls-Succeeds ns fp fp' (suc i) (suc j) (suc k) path os ws
                  (Below-cons bound n ns below).1)
                (λ rest. (Nodes.cons child rest, refl)))

    pub build_calls-Succeeds :
        (ns : CallNodes) (fp fp' : FieldPath) (i j k : ℕ) (path : List Label)
        → no_orphan_calls h ops fp i ns ≡ []
        → call_variants h fp' j ns ≡ []
        → Below bound ns
        → Succeeds visiting (build_calls h build_operation k ns path)
    unfolding build_calls call_variants no_orphan_calls
    build_calls-Succeeds CallNodes.end fp fp' i j k path orphans variants below = (Nodes.end, refl)
    build_calls-Succeeds (CallNodes.cons n ns) fp fp' i j k path orphans variants below =
        let (o, os) = append-eq-nil (no_orphan_call h ops (fp /ᵢ i) n) _ orphans in
        let (w, ws) = append-eq-nil (call_variant h (fp' /ᵢ j) n) _ variants in
        bind-Succeeds (build_call_node h build_operation n (path ++ Label.call k ∷ []))
          (λ child. build_calls h build_operation (suc k) ns path >>= λ rest.
            return (Nodes.cons child rest))
          (build_call_node-Succeeds n (fp /ᵢ i) (fp' /ᵢ j) (path ++ Label.call k ∷ []) o w
            (Below-cons bound n ns below).0)
          (λ child.
            bind-Succeeds (build_calls h build_operation (suc k) ns path)
              (λ rest. return (Nodes.cons child rest))
              (build_calls-Succeeds ns fp fp' (suc i) (suc j) (suc k) path os ws
                (Below-cons bound n ns below).1)
              (λ rest. (Nodes.cons child rest, refl)))
