-- ===== src/Journey/Executor/Ends.antt =====
-- An attempt ends if the loop over its children does, with its span and theirs finished.
use xk6_otel_gen.Prelude.{
  false, Option, none, some, List, [], ◌∷◌, if◌then◌else◌, Bool-cases, inl, inr,
}
use xk6_otel_gen.Prelude.Int.{ℤ, pos, add_64, ◌+ℤ◌}
use xk6_otel_gen.Topology.Float.{Float64}
use xk6_otel_gen.Topology.Types.{
  Heap, Duration, ServiceRef, OperationRef, EdgeRef, LogEventSpec, MetricSpec,
  MetricStateUpdateSpec, ProfileSpec,
}
use xk6_otel_gen.Topology.Faults.{FaultOverlay}
use xk6_otel_gen.Journey.World.{World}
use xk6_otel_gen.Journey.Plan.{NodeInfo}
use xk6_otel_gen.Journey.Outcome.{Outcome, outcome}
use xk6_otel_gen.Journey.Fault.Fold.{FoldedFault, fold_faults}
use xk6_otel_gen.Journey.Fault.{sample_edge_latency}
use xk6_otel_gen.Journey.Telemetry.{
  Instant, begin_span, log_events, metric_events, state_events, declared_events, finish_events,
  log_event_matches,
}
use xk6_otel_gen.Journey.Attempt.{
  Execution, finish_and_emit, finished, forces_failure, complete, attempt, execute_single_attempt,
  begun, producer_span, producer_events, span_of, is_messaging, rand_int_n, edge_of, emit_producer,
  producer_link, profile_of, exceeds_timeout, timeout_outcome,
}
use xk6_otel_gen.Journey.Executor.Spans.{
  Ends, Ends-return, Ends-read, Ends-emit, Ends-bind, Ends-if, Ends-inside, Quiet, Quiet-append,
  Quiet-none, Quiet-metric, Quiet-log, Quiet-custom, Quiet-state, Quiet-profile, profile_id-Shifts,
  Shifts, Shifts-append, metric-Shifts, begin_span-Shifts, finish_span-Shifts,
}

module _ (fl : Float64) where
  open fl use {F}

  module _ (info : NodeInfo F) (instance_idx : ℤ) (o : Outcome) (end_ : Instant)
      (ff : FoldedFault F) where
    log_events-Quiet :
        (evs : List LogEventSpec) → Quiet (log_events fl info instance_idx o end_ ff evs)
    unfolding log_events
    log_events-Quiet [] = Quiet-none
    log_events-Quiet (ev ∷ evs) = elim (Bool-cases (log_event_matches ev.condition o.success)) [
      | inl e ↦ rw e (Quiet-log _ _ (log_events-Quiet evs))
      | inr e ↦ rw e (log_events-Quiet evs)
    ]

    metric_events-Quiet :
        (ms : List (MetricSpec F)) → Quiet (metric_events fl info instance_idx o end_ ff ms)
    unfolding metric_events
    metric_events-Quiet [] = Quiet-none
    metric_events-Quiet (m ∷ ms) = elim (Bool-cases (log_event_matches m.condition o.success)) [
      | inl e ↦ rw e (Quiet-custom _ _ (metric_events-Quiet ms))
      | inr e ↦ rw e (metric_events-Quiet ms)
    ]

    state_events-Quiet :
        (us : List (MetricStateUpdateSpec F))
        → Quiet (state_events fl info instance_idx o end_ ff us)
    unfolding state_events
    state_events-Quiet [] = Quiet-none
    state_events-Quiet (u ∷ us) = elim (Bool-cases (log_event_matches u.condition o.success)) [
      | inl e ↦ rw e (Quiet-state _ _ (state_events-Quiet us))
      | inr e ↦ rw e (state_events-Quiet us)
    ]

    declared_events-Quiet :
        (svc : Option ServiceRef) → Quiet (declared_events fl info instance_idx o end_ ff svc)
    unfolding declared_events
    declared_events-Quiet none = Quiet-none
    declared_events-Quiet (some svc) = Quiet-append _ _ (log_events-Quiet info.log_events) (
        Quiet-append _ _ (metric_events-Quiet info.metrics) (state_events-Quiet info.state_updates))

    finish_events-Shifts :
        (p : Option (ProfileSpec F)) → Shifts 1 0 (finish_events fl info instance_idx o end_ ff p)
    unfolding finish_events
    finish_events-Shifts none =
        finish_span-Shifts _ _
          (Quiet-metric _ _ (Quiet-log _ _ (declared_events-Quiet info.service)))
    finish_events-Shifts (some p) = profile_id-Shifts _ (
        finish_span-Shifts _ _ (
          Quiet-metric _ _ (
            Quiet-log _ _
              (Quiet-append _ _ (declared_events-Quiet info.service) (Quiet-profile _)))))

  module _ (world : World F) (h : Heap F) (overlay : FaultOverlay F) where
    profile_of-Ends :
        (svc : Option ServiceRef) (p : Option (ProfileSpec F))
        → Ends 0 0 (profile_of fl world h svc p)
    unfolding profile_of
    profile_of-Ends none p = Ends-return 0 none
    profile_of-Ends (some svc) none = Ends-return 0 none
    profile_of-Ends (some svc) (some p) =
        Ends-if 0 0 p.enabled _ _
          (Ends-bind 0 0 0 _ _ (Ends-read 0 world.has_valid_span)
            (λ valid. Ends-return 0 (if valid then some p else none)))
          (Ends-return 0 none)

    module _ (info : NodeInfo F) where
      pub finished-Ends :
          (instance_idx : ℤ) (ff : FoldedFault F) (end_ : Instant) (o : Outcome)
          → Ends 1 0 (finished fl world h overlay info instance_idx ff end_ o)
      unfolding finished finish_and_emit
      finished-Ends instance_idx ff end_ o =
          Ends-bind 1 0 0 _ _
            (Ends-bind 1 1 0 _ _ (Ends-inside _ (profile_of-Ends info.service info.profile))
              (λ p. Ends-emit 1 0 _ (finish_events-Shifts info instance_idx o end_ ff p)))
            (λ u. Ends-return 0 o)

      forces_failure-Ends : (ff : FoldedFault F) → Ends 1 1 (forces_failure fl world h ff)
      unfolding forces_failure
      forces_failure-Ends ff =
          Ends-if 1 1 (fl.lt_f fl.zero_f ff.error_rate) _ _
            (Ends-bind 1 1 1 _ _ (Ends-read 1 world.random_float)
              (λ u. Ends-return 1 (fl.lt_f u ff.error_rate)))
            (Ends-return 1 false)

      -- An attempt ends if the loop over its children does.
      module _ (run_children : Instant → Duration → Execution fl world h Duration)
          (runs : (start : Instant) (d : Duration) → Ends 0 0 (run_children start d)) where
        complete-Ends :
            (instance_idx : ℤ) (ff : FoldedFault F) (d : Duration) (start : Instant)
            → Ends 1 0 (complete fl world h overlay info run_children instance_idx ff d start)
        unfolding complete
        complete-Ends instance_idx ff d start =
            Ends-bind 1 1 0 _ _ (forces_failure-Ends ff) (λ forced.
              Ends-bind 1 1 0 _ _ (Ends-inside _ (runs start d))
                (λ total. finished-Ends instance_idx ff _ _))

        attempt-Ends :
            (instance_idx : ℤ) (ff : FoldedFault F) (d : Duration) (start : Instant)
            → Ends 1 0 (attempt fl world h overlay info run_children instance_idx ff d start)
        unfolding attempt
        attempt-Ends instance_idx ff d start =
            Ends-bind 1 1 0 _ _ (Ends-read 1 world.is_canceled) (λ canceled.
              Ends-if 1 0 canceled _ _
                (finished-Ends instance_idx ff start
                  (outcome false (pos 0) "context_canceled" (pos 0)))
                (Ends-if 1 0 (exceeds_timeout fl world h info.edge d) _ _
                  (finished-Ends instance_idx ff
                    (start +ℤ (timeout_outcome fl world h info.edge).latency)
                    (timeout_outcome fl world h info.edge))
                  (Ends-if 1 0 ff.disconnected _ _
                    (finished-Ends instance_idx ff (start +ℤ d)
                      (outcome false (pos 503) "connection_refused" d))
                    (complete-Ends instance_idx ff d start))))

        begun-Ends :
            (instance_idx : ℤ) (ff : FoldedFault F) (d : Duration) (start : Instant)
            → Ends 1 0 (begun fl world h overlay info run_children instance_idx ff d start)
        unfolding begun
        begun-Ends instance_idx ff d start =
            Ends-if 1 0 ff.crashed _ _
              (finished-Ends instance_idx ff start (outcome false (pos 500) "crashed" (pos 0)))
              (attempt-Ends instance_idx ff d start)

        producer_span-Ends :
            (e : EdgeRef) (from : OperationRef) (svc : Option ServiceRef) (start : Instant)
            → Ends 0 0 (producer_span fl world h e from svc start)
        unfolding producer_span
        producer_span-Ends e from none start = Ends-return 0 false
        producer_span-Ends e from (some svc) start =
            Ends-bind 0 0 0 _ _
              (Ends-emit 0 0 (producer_events fl world h e from svc start) (
                Shifts-append 0 1 0 (begin_span _ ∷ []) _ (begin_span-Shifts _)
                  (metric-Shifts _ _ (finish_span-Shifts _ [] Quiet-none))))
              (λ u. Ends-read 0 world.has_valid_span)

        producer_link-Ends :
            (e : Option EdgeRef) (start : Instant) → Ends 0 0 (producer_link fl world h e start)
        unfolding producer_link emit_producer
        producer_link-Ends none start = Ends-return 0 false
        producer_link-Ends (some e) start =
            Ends-if 0 0 (is_messaging (h.edge e).protocol) _ _ (link (h.edge e).source)
              (Ends-return 0 false)
          where
            link : (from : Option OperationRef) → Ends 0 0 (emit_producer fl world h e from start)
            link none = Ends-return 0 false
            link (some from) = producer_span-Ends e from (h.operation from).service start

        pub execute_single_attempt-Ends :
            (svc : ServiceRef) (start : Instant)
            → Ends 0 0 (execute_single_attempt fl world h overlay info run_children svc start)
        unfolding execute_single_attempt
        execute_single_attempt-Ends svc start =
            Ends-bind 0 0 0 _ _ (Ends-read 0 (fold_faults fl world h overlay info)) (λ ff.
              Ends-bind 0 0 0 _ _ (Ends-read 0 (rand_int_n fl world h (h.service svc).replicas))
                (λ instance_idx.
                  Ends-bind 0 0 0 _ _
                    (Ends-read 0 (sample_edge_latency fl world (edge_of fl world h info.edge)))
                    (λ base. Ends-bind 0 0 0 _ _ (producer_link-Ends info.edge start) (λ linked.
                      Ends-bind 0 1 0 _ _
                        (Ends-emit 0 1
                          (begin_span (span_of fl world h info start instance_idx linked) ∷ [])
                          (begin_span-Shifts (span_of fl world h info start instance_idx linked)))
                        (λ u. begun-Ends instance_idx ff (add_64 base ff.latency_inflate) start)))))
