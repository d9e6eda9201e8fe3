-- ===== src/Journey/Attempt.antt =====
-- journey/executor.go, journey/messaging.go and journey/replica.go: one attempt at a call.
use xk6_otel_gen.Prelude.{
  String, Bool, true, false, Option, none, some, List, [], ◌∷◌, str_eq, if◌then◌else◌,
}
use xk6_otel_gen.Prelude.Int.{ℤ, pos, ltb_ℤ, add_64, quot_ℤ, ◌+ℤ◌}
use xk6_otel_gen.Topology.Enums.{Protocol}
use xk6_otel_gen.Topology.Float.{Float64}
use xk6_otel_gen.Topology.Types.{
  Heap, Edge, Duration, ProfileSpec, ServiceRef, OperationRef, EdgeRef,
}
use xk6_otel_gen.Topology.Faults.{FaultOverlay}
use xk6_otel_gen.Journey.World.{World, Exec, return, ◌>>=◌, emit, read}
use xk6_otel_gen.Journey.Plan.{NodeInfo}
use xk6_otel_gen.Journey.Outcome.{
  Outcome, outcome, zero_outcome, pick_status_code, apply_timeout_failure, times_out,
}
use xk6_otel_gen.Journey.Fault.{default_entry_latency, leb_ℤ, sample_edge_latency}
use xk6_otel_gen.Journey.Fault.Fold.{FoldedFault, fold_faults}
use xk6_otel_gen.Journey.Telemetry.{
  Instant, Event, SynthOutcome, SpanInput, begin_span, finish_span, record_metric, finish_events,
}

abbrev pub is_messaging : Protocol → Bool
is_messaging Protocol.messaging = true
is_messaging _ = false

module _ (fl : Float64) (world : World (Float64.F fl)) (h : Heap (Float64.F fl)) where
  open fl use {F, zero_f, lt_f}
  open world use {W, random_float, random_int, is_canceled, has_valid_span}

  -- The computations of an execution.
  abbrev pub Execution : Type 0 → Type 0
  Execution A = Exec W (Event F) A

  unfoldable pub rand_int_n : ℤ → W → ℤ × W
  rand_int_n n w = if leb_ℤ n (pos 1) then (pos 0, w) else random_int n w

  abbrev pub edge_of : Option EdgeRef → Option (Edge F)
  edge_of none = none
  edge_of (some e) = some (h.edge e)

  -- The profile of a node that is enabled, if its span has a valid context.
  unfoldable pub profile_of :
      Option ServiceRef → Option (ProfileSpec F) → Execution (Option (ProfileSpec F))
  profile_of (some svc) (some p) =
      if p.enabled
      then (do valid ← read has_valid_span; return (if valid then some p else none))
      else return none
  profile_of _ _ = return none

  unfoldable pub finish_and_emit :
      NodeInfo F → ℤ → Outcome → Instant → FoldedFault F → Execution Unit
  unfolding profile_of finish_events
  finish_and_emit info instance_idx o end_ ff = do
    profile ← profile_of info.service info.profile
    emit (finish_events fl info instance_idx o end_ ff profile)

  unfoldable pub messaging_publish_latency : Edge F → Duration
  messaging_publish_latency edge =
      if ltb_ℤ (pos 0) edge.latency.p50 then quot_ℤ edge.latency.p50 4 else default_entry_latency

  abbrev pub publish_outcome : Edge F → Instant → SynthOutcome
  publish_outcome edge start = record {
    success = true;
    status_code = pos 200;
    error_type = "";
    end_time = start +ℤ messaging_publish_latency edge;
    cascaded = false;
  }

  -- The calls of emitMessagingProducerSpan for an edge from an operation of a service.
  abbrev pub producer_events : EdgeRef → OperationRef → ServiceRef → Instant → List (Event F)
  producer_events e from svc start =
      begin_span (record {
        service = some svc;
        edge = some e;
        operation = (h.operation from).name;
        start_time = start;
        instance_idx = pos 0;
        linked = false;
      })
      ∷ record_metric (record {
        service = some svc;
        edge = some e;
        operation = (h.operation from).name;
        latency = messaging_publish_latency (h.edge e);
        outcome = publish_outcome (h.edge e) start;
        instance_idx = pos 0;
      })
      ∷ finish_span (publish_outcome (h.edge e) start)
      ∷ []

  -- Whether the span context of the producer is valid.
  unfoldable pub producer_span :
      EdgeRef → OperationRef → Option ServiceRef → Instant → Execution Bool
  unfolding messaging_publish_latency
  producer_span e from none start = return false
  producer_span e from (some svc) start = do
    _ ← emit (producer_events e from svc start)
    read has_valid_span

  unfoldable pub emit_producer : EdgeRef → Option OperationRef → Instant → Execution Bool
  unfolding producer_span
  emit_producer e none start = return false
  emit_producer e (some from) start = producer_span e from (h.operation from).service start

  unfoldable pub producer_link : Option EdgeRef → Instant → Execution Bool
  unfolding emit_producer
  producer_link none start = return false
  producer_link (some e) start =
      if is_messaging (h.edge e).protocol
      then emit_producer e (h.edge e).source start
      else return false

  abbrev pub span_of : NodeInfo F → Instant → ℤ → Bool → SpanInput
  span_of info start instance_idx linked = record {
    service = info.service;
    edge = info.edge;
    operation = info.operation;
    start_time = start;
    instance_idx = instance_idx;
    linked = linked;
  }

  -- ff.errorRate > 0 && e.randFloat64() < ff.errorRate
  unfoldable pub forces_failure : FoldedFault F → Execution Bool
  forces_failure ff =
      if lt_f zero_f ff.error_rate
      then (do u ← read random_float; return (lt_f u ff.error_rate))
      else return false

  -- edge != nil && edge.Timeout > 0 && latency > edge.Timeout
  abbrev pub exceeds_timeout : Option EdgeRef → Duration → Bool
  exceeds_timeout none latency = false
  exceeds_timeout (some e) latency = times_out (h.edge e) latency

  abbrev pub timeout_outcome : Option EdgeRef → Outcome
  timeout_outcome none = zero_outcome
  timeout_outcome (some e) =
      apply_timeout_failure (h.edge e) (record zero_outcome { latency = (h.edge e).timeout })

  abbrev pub or_http_500 : String → String
  or_http_500 kind = if str_eq kind "" then "http.500" else kind

  -- The outcome of an attempt that ran its children.
  unfoldable pub completed_outcome : Bool → FoldedFault F → Duration → Outcome
  completed_outcome forced ff latency =
      if forced
      then outcome false (pick_status_code true ff.error_type) (or_http_500 ff.error_type) latency
      else outcome true (pick_status_code false ff.error_type) "" latency

  module _ (overlay : FaultOverlay F) (info : NodeInfo F) where
    unfoldable pub finished : ℤ → FoldedFault F → Instant → Outcome → Execution Outcome
    unfolding finish_and_emit
    finished instance_idx ff end_ o = do _ ← finish_and_emit info instance_idx o end_ ff; return o

    -- `run_children start latency` is the loop over the children: it returns the latency after it.
    module _ (run_children : Instant → Duration → Execution Duration) where
      unfoldable pub complete : ℤ → FoldedFault F → Duration → Instant → Execution Outcome
      unfolding finished forces_failure completed_outcome
      complete instance_idx ff latency start = do
        forced ← forces_failure ff
        total ← run_children start latency
        let o = completed_outcome forced ff total
        finished instance_idx ff (start +ℤ o.latency) o

      -- The attempt after BeginSpan where nothing has crashed.
      unfoldable pub attempt : ℤ → FoldedFault F → Duration → Instant → Execution Outcome
      unfolding finished complete
      attempt instance_idx ff latency start = do
        canceled ← read is_canceled
        if canceled
            then finished instance_idx ff start (outcome false (pos 0) "context_canceled" (pos 0))
            else if exceeds_timeout info.edge latency
            then finished instance_idx ff (start +ℤ (timeout_outcome info.edge).latency)
                (timeout_outcome info.edge)
            else if ff.disconnected
            then finished instance_idx ff (start +ℤ latency)
                (outcome false (pos 503) "connection_refused" latency)
            else complete instance_idx ff latency start

      -- The attempt after BeginSpan.
      unfoldable pub begun : ℤ → FoldedFault F → Duration → Instant → Execution Outcome
      unfolding finished attempt
      begun instance_idx ff latency start =
          if ff.crashed
          then finished instance_idx ff start (outcome false (pos 500) "crashed" (pos 0))
          else attempt instance_idx ff latency start

      unfoldable pub execute_single_attempt : ServiceRef → Instant → Execution Outcome
      unfolding begun producer_link rand_int_n add_64
      execute_single_attempt svc start = do
        ff ← read (fold_faults fl world h overlay info)
        instance_idx ← read (rand_int_n (h.service svc).replicas)
        base ← read (sample_edge_latency fl world (edge_of info.edge))
        linked ← producer_link info.edge start
        _ ← emit (begin_span (span_of info start instance_idx linked) ∷ [])
        begun instance_idx ff (add_64 base ff.latency_inflate) start
