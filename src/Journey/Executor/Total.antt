-- ===== src/Journey/Executor/Total.antt =====
-- The execution of a plan ends, with its spans finished in the order of a stack.
use xk6_otel_gen.Prelude.{
  ℕ, zero, suc, ◌<◌, ◌≤◌, subst, ◌≡◌, refl, true, false, Option, none, some, List, [], ◌∷◌,
  if◌then◌else◌, arith,
}
use mathlib.Core.List.{Memᴰ}
use xk6_otel_gen.Prelude.Int.{pos, add_64, ◌+ℤ◌}
use xk6_otel_gen.Topology.Float.{Float64}
use xk6_otel_gen.Topology.Types.{Heap, Duration, ServiceRef, OperationRef, EdgeRef, RecoveryPolicy}
use xk6_otel_gen.Topology.Faults.{FaultOverlay}
use xk6_otel_gen.Journey.World.{World}
use xk6_otel_gen.Journey.Plan.{NodeInfo, Node, Nodes, Plan}
use xk6_otel_gen.Journey.Outcome.{Outcome, outcome, aggregate_parallel_outcomes}
use xk6_otel_gen.Journey.Fault.Fold.{zero_fault}
use xk6_otel_gen.Journey.Telemetry.{Instant, Event}
use xk6_otel_gen.Journey.Attempt.{Execution, span_of, rand_int_n, edge_of}
use xk6_otel_gen.Journey.Recovery.{policy_of}
use xk6_otel_gen.Journey.Executor.{
  Fallbacks, fallback_service, fallback_target, execute_fallback, execute_cascade, execute_node,
  execute_plain, execute_parallel, execute_virtual, run_children, cascade_children, execute,
  has_failed, fallback_info, no_fallback_outcome, nil_node_outcome, child_parent,
}
use xk6_otel_gen.Journey.Executor.Spans.{
  Ends, Ends-return, Ends-read, Ends-emit, Ends-bind, Ends-branch, Ends-if, begin_span-Shifts,
  open_spans,
}
use xk6_otel_gen.Journey.Executor.Ends.{finished-Ends, execute_single_attempt-Ends}
use xk6_otel_gen.Journey.Executor.Sequence.{PolicyEnds, execute_attempt_sequence-Ends}

module _ (fl : Float64) (world : World (Float64.F fl)) (h : Heap (Float64.F fl))
    (overlay : FaultOverlay (Float64.F fl)) (rank : EdgeRef → ℕ)
    (ranked : (e : EdgeRef) (p : RecoveryPolicy)
      → (h.edge e).on_failure ≡ some p
      → (f : EdgeRef) → Memᴰ (some f) p.fallback
      → rank f < rank e) where
  open fl use {F}

  -- With more fuel than the rank of an edge, the execution of its fallbacks ends.
  edge-PolicyEnds :
      (fuel : ℕ) (e : EdgeRef)
      → ((f : Option EdgeRef) (start : Instant)
          → ((g : EdgeRef) → f ≡ some g → rank g < fuel)
          → Ends 0 0 (execute_fallback fl world h overlay fuel f start))
      → rank e ≤ fuel
      → PolicyEnds (execute_fallback fl world h overlay fuel) (h.edge e).on_failure
  edge-PolicyEnds fuel e ends low p has f m at =
      ends f at (λ g same. omega (arith, ranked e p has g (subst (λ x. Memᴰ x p.fallback) same m)))

  fallback_target-Ends :
      (nested : Fallbacks fl world h overlay) (e : EdgeRef) (target : Option OperationRef)
      (start : Instant)
      → PolicyEnds nested (h.edge e).on_failure
      → Ends 0 0 (fallback_target fl world h overlay nested e target start)
  unfolding fallback_target fallback_service
  fallback_target-Ends nested e none start each = Ends-return 0 no_fallback_outcome
  fallback_target-Ends nested e (some op) start each = by_service (h.operation op).service
    where
      by_service :
          (svc : Option ServiceRef)
          → Ends 0 0 (fallback_service fl world h overlay nested e (h.operation op).name svc start)
      by_service none = Ends-return 0 no_fallback_outcome
      by_service (some svc) =
          execute_attempt_sequence-Ends nested _ _ (some (h.edge e)) start
            (λ at.
              execute_single_attempt-Ends fl world h overlay
                (fallback_info fl world h overlay e svc (h.operation op).name) _
                (λ at' latency. Ends-return 0 latency) svc at)
            (λ o at. Ends-return 0 tt) each

  execute_fallback-Ends :
      (fuel : ℕ) (f : Option EdgeRef) (start : Instant)
      → ((g : EdgeRef) → f ≡ some g → rank g < fuel)
      → Ends 0 0 (execute_fallback fl world h overlay fuel f start)
  unfolding execute_fallback
  execute_fallback-Ends fuel none start low = Ends-return 0 no_fallback_outcome
  execute_fallback-Ends zero (some e) start low = absurd (omega (arith, low e refl))
  execute_fallback-Ends (suc fuel) (some e) start low =
      fallback_target-Ends (execute_fallback fl world h overlay fuel) e (h.edge e).target start
        (edge-PolicyEnds fuel e (execute_fallback-Ends fuel) (omega (arith, low e refl)))

  execute_cascade-Ends :
      (info : NodeInfo F) (svc : ServiceRef) (parent : Option Outcome) (start : Instant)
      → Ends 0 0 (execute_cascade fl world h overlay info svc parent start)
  unfolding execute_cascade
  execute_cascade-Ends info svc none start = Ends-return 0 nil_node_outcome
  execute_cascade-Ends info svc (some parent) start =
      Ends-bind 0 0 0 _ _ (Ends-read 0 (rand_int_n fl world h (h.service svc).replicas))
        (λ instance_idx.
          Ends-bind 0 1 0 _ _
            (Ends-emit 0 1 _ (begin_span-Shifts (span_of fl world h info start instance_idx false)))
            (λ u.
              finished-Ends fl world h overlay info instance_idx (zero_fault fl) start
                (record (outcome false parent.status_code parent.error_type (pos 0)) {
                  cascaded = true;
                })))

  module _ (fuel : ℕ) (low : (e : EdgeRef) → rank e ≤ fuel) where
    -- The fallbacks of the edge of a node end.
    node-PolicyEnds :
        (e : Option EdgeRef)
        → PolicyEnds (execute_fallback fl world h overlay fuel) (policy_of (edge_of fl world h e))
    node-PolicyEnds none = λ p has f m at. absurd cc
    node-PolicyEnds (some e) = edge-PolicyEnds fuel e (execute_fallback-Ends fuel) (low e)

    execute_plain-Ends :
        (info : NodeInfo F) (virtual : Execution fl world h Outcome)
        (run : Instant → Duration → Execution fl world h Duration)
        (cascade_ : Outcome → Instant → Execution fl world h Unit) (svc : Option ServiceRef)
        (parent : Option Outcome) (start : Instant)
        → Ends 0 0 virtual
        → ((at : Instant) (latency : Duration) → Ends 0 0 (run at latency))
        → ((o : Outcome) (at : Instant) → Ends 0 0 (cascade_ o at))
        → Ends 0 0
            (execute_plain fl world h overlay fuel info virtual run cascade_ svc parent start)
    unfolding execute_plain
    execute_plain-Ends info virtual run cascade_ none parent start ends runs below = ends
    execute_plain-Ends info virtual run cascade_ (some svc) parent start ends runs below =
        Ends-if 0 0 (has_failed parent) _ _ (execute_cascade-Ends info svc parent start) (
          execute_attempt_sequence-Ends (execute_fallback fl world h overlay fuel) cascade_ _
            (edge_of fl world h info.edge) start
            (λ at. execute_single_attempt-Ends fl world h overlay info run runs svc at) below
            (node-PolicyEnds info.edge))

    mutual
      unfolding execute_node

      execute_node-Ends :
          (n : Node F) (parent : Option Outcome) (start : Instant)
          → Ends 0 0 (execute_node fl world h overlay fuel n parent start)
      execute_node-Ends Node.null parent start = Ends-return 0 nil_node_outcome
      execute_node-Ends (Node.node info (Nodes.cons n ns) children) parent start =
          Ends-bind 0 0 0 _ _ (execute_parallel-Ends (Nodes.cons n ns) parent start)
            (λ os. Ends-return 0 (aggregate_parallel_outcomes os))
      execute_node-Ends (Node.node info Nodes.end children) parent start =
          execute_plain-Ends info _ _ _ info.service parent start
            (execute_virtual-Ends children parent start (pos 0) _)
            (λ at latency. run_children-Ends children at latency)
            (λ o at. cascade_children-Ends children o at)

      execute_parallel-Ends :
          (ns : Nodes F) (parent : Option Outcome) (start : Instant)
          → Ends 0 0 (execute_parallel fl world h overlay fuel ns parent start)
      execute_parallel-Ends Nodes.end parent start = Ends-return 0 []
      execute_parallel-Ends (Nodes.cons n ns) parent start =
          Ends-bind 0 0 0 _ _ (Ends-branch world.fork 0 0 _ (execute_node-Ends n parent start))
            (λ o.
              Ends-bind 0 0 0 _ _ (execute_parallel-Ends ns parent start)
                (λ os. Ends-return 0 (o ∷ os)))

      execute_virtual-Ends :
          (ns : Nodes F) (parent : Option Outcome) (start : Instant) (total : Duration)
          (o : Outcome)
          → Ends 0 0 (execute_virtual fl world h overlay fuel ns parent start total o)
      execute_virtual-Ends Nodes.end parent start total o = Ends-return 0 _
      execute_virtual-Ends (Nodes.cons n ns) parent start total o =
          Ends-bind 0 0 0 _ _ (execute_node-Ends n parent (start +ℤ total)) (λ child.
            execute_virtual-Ends ns (if child.success then parent else some child) start
              (add_64 total child.latency) child)

      run_children-Ends :
          (ns : Nodes F) (start : Instant) (total : Duration)
          → Ends 0 0 (run_children fl world h overlay fuel ns start total)
      run_children-Ends Nodes.end start total = Ends-return 0 total
      run_children-Ends (Nodes.cons n ns) start total =
          Ends-bind 0 0 0 _ _ (execute_node-Ends n (some child_parent) (start +ℤ total)) (λ child.
            Ends-if 0 0 child.success _ _ (run_children-Ends ns start (add_64 total child.latency))
              (Ends-return 0 (add_64 total child.latency)))

      cascade_children-Ends :
          (ns : Nodes F) (parent : Outcome) (start : Instant)
          → Ends 0 0 (cascade_children fl world h overlay fuel ns parent start)
      cascade_children-Ends Nodes.end parent start = Ends-return 0 tt
      cascade_children-Ends (Nodes.cons n ns) parent start =
          Ends-bind 0 0 0 _ _ (execute_node-Ends n (some parent) start)
            (λ child. cascade_children-Ends ns parent (start +ℤ child.latency))

    -- If the fallbacks of an edge's policy have a lower rank than the edge, and no rank is above the
    -- fuel, the execution of a plan ends in every world, and the calls it makes finish every span they
    -- begin, never one that is not open.
    pub execute-Ends :
        (plan : Plan F) (start : Instant) (w : world.W)
        → (r : Outcome × (List (Event F) × world.W)) × ((execute fl world h overlay fuel plan start
                w
              ≡ some r)
            × (open_spans 0 (r.1.0) ≡ some 0))
    unfolding execute
    execute-Ends plan start w =
        let (r, (e, s)) = (execute_node-Ends plan.root none start).ends w in (r, (e, s.shifts 0))
