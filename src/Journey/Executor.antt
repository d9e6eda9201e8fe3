-- ===== src/Journey/Executor.antt =====
-- journey/executor.go and journey/recovery.go: the execution of a node of a plan. Fuel bounds the chain
-- of fallbacks of fallbacks; the tree of nodes is walked by structural recursion.
pub mod Spans
pub mod Ends
pub mod Sequence
pub mod Total
pub mod Cascade
use xk6_otel_gen.Prelude.{
  ℕ, zero, suc, String, Bool, true, false, not, Option, none, some, List, [], ◌∷◌, if◌then◌else◌,
}
use xk6_otel_gen.Prelude.Int.{ℤ, pos, add_64, ◌+ℤ◌}
use xk6_otel_gen.Topology.Float.{Float64}
use xk6_otel_gen.Topology.Types.{Heap, Duration, ServiceRef, OperationRef, EdgeRef}
use xk6_otel_gen.Topology.Faults.{FaultOverlay}
use xk6_otel_gen.Journey.World.{World, return, ◌>>=◌, emit, read, out_of_fuel, branch}
use xk6_otel_gen.Journey.Plan.{NodeInfo, Node, Nodes, Plan}
use xk6_otel_gen.Journey.Outcome.{Outcome, outcome, aggregate_parallel_outcomes}
use xk6_otel_gen.Journey.Fault.Fold.{zero_fault}
use xk6_otel_gen.Journey.Telemetry.{Instant, begin_span}
use xk6_otel_gen.Journey.Attempt.{
  Execution, rand_int_n, edge_of, finished, span_of, execute_single_attempt,
}
use xk6_otel_gen.Journey.Recovery.{execute_attempt_sequence}

-- The outcome of a nil node and of a fallback that leads nowhere.
abbrev pub nil_node_outcome : Outcome
nil_node_outcome = outcome false (pos 500) "crashed" (pos 0)

abbrev pub no_fallback_outcome : Outcome
no_fallback_outcome = outcome false (pos 503) "connection_refused" (pos 0)

-- parent != nil && !parent.Success
abbrev pub has_failed : Option Outcome → Bool
has_failed none = false
has_failed (some parent) = not parent.success

-- &Outcome{Success: true, StatusCode: 200}
abbrev pub child_parent : Outcome
child_parent = outcome true (pos 200) "" (pos 0)

module _ (fl : Float64) (world : World (Float64.F fl)) (h : Heap (Float64.F fl))
    (overlay : FaultOverlay (Float64.F fl)) where
  open fl use {F}

  -- The node that stands for a fallback edge to a service.
  abbrev pub fallback_info : EdgeRef → ServiceRef → String → NodeInfo F
  fallback_info e svc name = record {
    service = some svc;
    operation = name;
    edge = some e;
    log_events = [];
    metrics = [];
    state_updates = [];
    profile = none;
  }

  -- What an execution of fallback edges is: executeFallbackAt.
  abbrev pub Fallbacks : Type 0
  Fallbacks = Option EdgeRef → Instant → Execution fl world h Outcome

  unfoldable pub fallback_service :
      Fallbacks → EdgeRef → String → Option ServiceRef → Instant → Execution fl world h Outcome
  fallback_service nested e name none start = return no_fallback_outcome
  fallback_service nested e name (some svc) start =
      execute_attempt_sequence nested (λ final at. return tt)
        (execute_single_attempt fl world h overlay (fallback_info e svc name)
          (λ at latency. return latency) svc)
        (some (h.edge e)) start

  unfoldable pub fallback_target :
      Fallbacks → EdgeRef → Option OperationRef → Instant → Execution fl world h Outcome
  unfolding fallback_service
  fallback_target nested e none start = return no_fallback_outcome
  fallback_target nested e (some op) start =
      fallback_service nested e (h.operation op).name (h.operation op).service start

  unfoldable pub execute_fallback : ℕ → Fallbacks
  unfolding fallback_target
  execute_fallback fuel none start = return no_fallback_outcome
  execute_fallback zero (some e) start = out_of_fuel
  execute_fallback (suc fuel) (some e) start =
      fallback_target (execute_fallback fuel) e (h.edge e).target start

  -- executeCascadeAt on a node of a service.
  unfoldable pub execute_cascade :
      NodeInfo F → ServiceRef → Option Outcome → Instant → Execution fl world h Outcome
  execute_cascade info svc none start = return nil_node_outcome
  execute_cascade info svc (some parent) start = do
    instance_idx ← read (rand_int_n fl world h (h.service svc).replicas)
    _ ← emit (begin_span (span_of fl world h info start instance_idx false) ∷ [])
    finished fl world h overlay info instance_idx (zero_fault fl) start
        (record (outcome false parent.status_code parent.error_type (pos 0)) { cascaded = true })

  module _ (fuel : ℕ) where
    -- A node without a parallel group, by its service, given the loops over its children.
    unfoldable pub execute_plain :
        NodeInfo F
        → Execution fl world h Outcome
        → (Instant → Duration → Execution fl world h Duration)
        → (Outcome → Instant → Execution fl world h Unit)
        → Option ServiceRef
        → Option Outcome
        → Instant
        → Execution fl world h Outcome
    execute_plain info virtual run cascade none parent start = virtual
    execute_plain info virtual run cascade (some svc) parent start =
        if has_failed parent
        then execute_cascade info svc parent start
        else execute_attempt_sequence (execute_fallback fuel) cascade
            (execute_single_attempt fl world h overlay info run svc) (edge_of fl world h info.edge)
            start

    unfoldable mutual
      unfolding execute_plain

      pub execute_node : Node F → Option Outcome → Instant → Execution fl world h Outcome
      execute_node Node.null parent start = return nil_node_outcome
      execute_node (Node.node info (Nodes.cons n ns) children) parent start = do
        outcomes ← execute_parallel (Nodes.cons n ns) parent start
        return (aggregate_parallel_outcomes outcomes)
      execute_node (Node.node info Nodes.end children) parent start =
          execute_plain info
            (execute_virtual children parent start (pos 0) (outcome true (pos 200) "" (pos 0)))
            (λ at latency. run_children children at latency)
            (λ final at. cascade_children children final at) info.service parent start

      -- The goroutines of a parallel group.
      pub execute_parallel :
          Nodes F → Option Outcome → Instant → Execution fl world h (List Outcome)
      execute_parallel Nodes.end parent start = return []
      execute_parallel (Nodes.cons n ns) parent start = do
        o ← branch world.fork (execute_node n parent start)
        os ← execute_parallel ns parent start
        return (o ∷ os)

      -- The loop of executeSequentialVirtualAt.
      pub execute_virtual :
          Nodes F → Option Outcome → Instant → Duration → Outcome → Execution fl world h Outcome
      execute_virtual Nodes.end parent start total o = return (record o { latency = total })
      execute_virtual (Nodes.cons n ns) parent start total o = do
        child ← execute_node n parent (start +ℤ total)
        execute_virtual ns (if child.success then parent else some child) start
            (add_64 total child.latency) child

      -- The loop over the children of an attempt: it stops at the first failure.
      pub run_children : Nodes F → Instant → Duration → Execution fl world h Duration
      run_children Nodes.end start total = return total
      run_children (Nodes.cons n ns) start total = do
        child ← execute_node n (some child_parent) (start +ℤ total)
        if child.success
            then run_children ns start (add_64 total child.latency)
            else return (add_64 total child.latency)

      -- executeChildrenAt below an outcome that failed.
      pub cascade_children : Nodes F → Outcome → Instant → Execution fl world h Unit
      cascade_children Nodes.end parent start = return tt
      cascade_children (Nodes.cons n ns) parent start = do
        child ← execute_node n (some parent) start
        cascade_children ns parent (start +ℤ child.latency)

    -- executeNode on the root of a plan.
    unfoldable pub execute : Plan F → Instant → Execution fl world h Outcome
    unfolding execute_node
    execute plan start = execute_node plan.root none start
