-- ===== src/Topology/Equal/Tree.antt =====
-- topology/equal.go: the equality of two schemas, whose objects stand in two heaps. The comparison of
-- the fallbacks of fallbacks has a depth; `none` past it.
use Prim.Native.String.{◌++◌ as ◌++ₛ◌}
use xk6_otel_gen.Prelude.{
  ℕ, zero, suc, String, Bool, true, false, ◌&&◌, Option, none, some, List, [], ◌∷◌, str_eq, length,
  ◌==◌, if◌then◌else◌,
}
use xk6_otel_gen.Prelude.Int.{pos, eq_ℤ}
use xk6_otel_gen.Prelude.Text.{string_default}
use xk6_otel_gen.Topology.Enums.{
  TargetKind, service_kind_code, protocol_code, exhausted_action_code, fault_kind_code,
  target_kind_code, backoff_code,
}
use xk6_otel_gen.Topology.Float.{Float64}
use xk6_otel_gen.Topology.Attributes.{equal_attributes}
use xk6_otel_gen.Topology.Types.{
  Heap, Schema, Service, Edge, Journey, RecoveryPolicy, CallNode, CallNodes, Step, Steps,
  FaultTarget, FaultSpec, Duration, ServiceRef, OperationRef, EdgeRef, default_retry_base_delay,
}
use xk6_otel_gen.Topology.Graph.{get}
use xk6_otel_gen.Topology.Parse.Schema.{default_namespace}
use xk6_otel_gen.Topology.Marshal.Tree.{identify_op, name_of_service}
use xk6_otel_gen.Topology.Marshal.Schema.{effective_schema_namespace}
use xk6_otel_gen.Topology.Equal.{
  equal_each, equal_pointer, equal_latency, equal_log_events, equal_metrics, equal_state_updates,
  equal_profile, equal_observable_metrics, equal_severity, equal_fault_schedule,
}

-- a && b, where each may run out of depth.
infixr 30 ◌and_also◌
abbrev pub ◌and_also◌ : Option Bool → Option Bool → Option Bool
none and_also b = none
some false and_also b = some false
some true and_also b = b

abbrev len_calls : CallNodes → ℕ
len_calls CallNodes.end = 0
len_calls (CallNodes.cons n ns) = suc (len_calls ns)

abbrev len_steps : Steps → ℕ
len_steps Steps.end = 0
len_steps (Steps.cons n ns) = suc (len_steps ns)

module _ {F : Type 0} where
  unfoldable pub edge_identity : Heap F → Option EdgeRef → String
  unfolding identify_op
  edge_identity h none = "<nil>"
  edge_identity h (some e) =
      identify_op h (h.edge e).source ++ₛ ("->" ++ₛ identify_op h (h.edge e).target)

  unfoldable pub effective_service_namespace : Service F → String
  effective_service_namespace svc = string_default svc.namespace default_namespace

  unfoldable pub effective_retry_base_delay : Edge F → Duration
  effective_retry_base_delay e =
      if eq_ℤ e.retry_base_delay (pos 0) then default_retry_base_delay else e.retry_base_delay

module _ (fl : Float64) (h h' : Heap fl.F) where
  open fl use {F, eq_f}

  abbrev equal_op : Option OperationRef → Option OperationRef → Bool
  unfolding identify_op
  equal_op a b = str_eq (identify_op h a) (identify_op h' b)

  -- The switch of equalFaultTarget.
  unfoldable pub equal_target_of : TargetKind → FaultTarget → FaultTarget → Bool
  unfolding identify_op edge_identity
  equal_target_of TargetKind.node a b =
      str_eq (name_of_service h a.service) (name_of_service h' b.service)
  equal_target_of TargetKind.operation a b = equal_op a.operation b.operation
  equal_target_of TargetKind.edge a b = str_eq (edge_identity h a.edge) (edge_identity h' b.edge)
  equal_target_of (TargetKind.other k) a b =
      str_eq (name_of_service h a.service) (name_of_service h' b.service)
      && (equal_op a.operation b.operation
          && str_eq (edge_identity h a.edge) (edge_identity h' b.edge))

  unfoldable pub equal_fault_target : FaultTarget → FaultTarget → Bool
  unfolding equal_target_of
  equal_fault_target a b =
      eq_ℤ (target_kind_code a.kind) (target_kind_code b.kind) && equal_target_of a.kind a b

  unfoldable pub equal_fault_spec : FaultSpec F → FaultSpec F → Bool
  unfolding equal_fault_target equal_severity equal_fault_schedule
  equal_fault_spec a b =
      eq_ℤ (fault_kind_code a.kind) (fault_kind_code b.kind)
      && (equal_fault_target a.target b.target
          && (equal_severity fl a.severity b.severity
              && equal_fault_schedule fl a.schedule b.schedule))

  unfoldable pub equal_faults : List (FaultSpec F) → List (FaultSpec F) → Bool
  unfolding equal_each equal_fault_spec
  equal_faults xs ys = equal_each equal_fault_spec xs ys

  unfoldable mutual
    unfolding identify_op

    pub equal_step : Step → Step → Bool
    equal_step Step.null Step.null = true
    equal_step Step.null (Step.step op parallel) = false
    equal_step (Step.step op parallel) Step.null = false
    equal_step (Step.step a xs) (Step.step b ys) =
        equal_op a b && (len_steps xs == len_steps ys && equal_steps xs ys)

    -- The loop of equalSteps, on lists of one length.
    pub equal_steps : Steps → Steps → Bool
    equal_steps Steps.end ys = true
    equal_steps (Steps.cons a xs) Steps.end = true
    equal_steps (Steps.cons a xs) (Steps.cons b ys) = equal_step a b && equal_steps xs ys

  unfoldable pub equal_journey : Option (Journey F) → Option (Journey F) → Bool
  unfolding equal_step
  equal_journey a b = equal_pointer equal_values a b
    where
      equal_values : Journey F → Journey F → Bool
      equal_values i j =
          str_eq i.name j.name
          && (eq_f i.weight j.weight
              && (len_steps i.steps == len_steps j.steps && equal_steps i.steps j.steps))

  -- for name, a := range m: each entry and its namesake in the other map.
  unfoldable pub equal_journeys_in :
      List (String × Option (Journey F)) → List (String × Option (Journey F)) → Bool
  unfolding equal_journey get
  equal_journeys_in [] m = true
  equal_journeys_in ((name, j) ∷ js) m = equal_journey j (get name m) && equal_journeys_in js m

  unfoldable pub equal_journeys :
      List (String × Option (Journey F)) → List (String × Option (Journey F)) → Bool
  unfolding equal_journeys_in
  equal_journeys xs ys = length xs == length ys && equal_journeys_in xs ys

  module _ (fallback : Option EdgeRef → Option EdgeRef → Option Bool) where
    unfoldable pub equal_fallbacks : List (Option EdgeRef) → List (Option EdgeRef) → Option Bool
    equal_fallbacks [] ys = some true
    equal_fallbacks (a ∷ xs) [] = some true
    equal_fallbacks (a ∷ xs) (b ∷ ys) = fallback a b and_also equal_fallbacks xs ys

    unfoldable pub equal_recovery_policy :
        Option RecoveryPolicy → Option RecoveryPolicy → Option Bool
    unfolding equal_fallbacks equal_attributes
    equal_recovery_policy none none = some true
    equal_recovery_policy none (some b) = some false
    equal_recovery_policy (some a) none = some false
    equal_recovery_policy (some a) (some b) =
        some (eq_ℤ (exhausted_action_code a.on_exhausted) (exhausted_action_code b.on_exhausted))
        and_also some (equal_attributes a.default_response b.default_response)
        and_also some (length a.fallback == length b.fallback)
        and_also equal_fallbacks a.fallback b.fallback

  -- The fields of an edge but for its policy.
  unfoldable pub equal_edge_fields : Edge F → Edge F → Bool
  unfolding identify_op equal_latency effective_retry_base_delay
  equal_edge_fields a b =
      equal_op a.source b.source
      && (equal_op a.target b.target
          && (eq_ℤ (protocol_code a.protocol) (protocol_code b.protocol)
              && (equal_latency a.latency b.latency
                  && (eq_f a.error_rate b.error_rate
                      && (eq_ℤ a.timeout b.timeout
                          && (eq_ℤ a.retries b.retries
                              && (eq_ℤ (backoff_code a.retry_backoff) (backoff_code b.retry_backoff)
                                  && eq_ℤ (effective_retry_base_delay a)
                                      (effective_retry_base_delay b))))))))

  unfoldable pub equal_edge : ℕ → Option EdgeRef → Option EdgeRef → Option Bool
  unfolding equal_edge_fields equal_recovery_policy
  equal_edge depth none none = some true
  equal_edge depth none (some b) = some false
  equal_edge depth (some a) none = some false
  equal_edge zero (some a) (some b) = none
  equal_edge (suc depth) (some a) (some b) =
      some (equal_edge_fields (h.edge a) (h'.edge b))
      and_also equal_recovery_policy (equal_edge depth) (h.edge a).on_failure (h'.edge b).on_failure

  unfoldable mutual
    unfolding equal_edge

    pub equal_call_node : ℕ → CallNode → CallNode → Option Bool
    equal_call_node depth CallNode.null CallNode.null = some true
    equal_call_node depth CallNode.null (CallNode.call e parallel) = some false
    equal_call_node depth (CallNode.call e parallel) CallNode.null = some false
    equal_call_node depth (CallNode.call a xs) (CallNode.call b ys) =
        equal_edge depth a b
        and_also some (len_calls xs == len_calls ys)
        and_also equal_calls depth xs ys

    -- The loop of equalCalls, on lists of one length.
    pub equal_calls : ℕ → CallNodes → CallNodes → Option Bool
    equal_calls depth CallNodes.end ys = some true
    equal_calls depth (CallNodes.cons a xs) CallNodes.end = some true
    equal_calls depth (CallNodes.cons a xs) (CallNodes.cons b ys) =
        equal_call_node depth a b and_also equal_calls depth xs ys

  unfoldable pub equal_operation : ℕ → Option OperationRef → Option OperationRef → Option Bool
  unfolding equal_call_node equal_log_events equal_metrics equal_state_updates equal_profile
      identify_op
  equal_operation depth none none = some true
  equal_operation depth none (some b) = some false
  equal_operation depth (some a) none = some false
  equal_operation depth (some a) (some b) =
      let p = h.operation a in
      let q = h'.operation b in
      some (equal_op (some a) (some b))
      and_also some (len_calls p.calls == len_calls q.calls)
      and_also equal_calls depth p.calls q.calls
      and_also some (
          equal_log_events p.log_events q.log_events
          && (equal_metrics fl p.metrics q.metrics
              && (equal_state_updates fl p.state_updates q.state_updates
                  && equal_profile fl p.profile q.profile)))

  unfoldable pub equal_operations_in :
      ℕ → List (String × Option OperationRef) → List (String × Option OperationRef) → Option Bool
  unfolding equal_operation get
  equal_operations_in depth [] m = some true
  equal_operations_in depth ((name, op) ∷ ops) m =
      equal_operation depth op (get name m) and_also equal_operations_in depth ops m

  unfoldable pub equal_service : ℕ → Option ServiceRef → Option ServiceRef → Option Bool
  unfolding equal_operations_in effective_service_namespace equal_observable_metrics
  equal_service depth none none = some true
  equal_service depth none (some b) = some false
  equal_service depth (some a) none = some false
  equal_service depth (some a) (some b) =
      let p = h.service a in
      let q = h'.service b in
      some (
        str_eq p.name q.name
        && (str_eq (effective_service_namespace p) (effective_service_namespace q)
            && (eq_ℤ (service_kind_code p.kind) (service_kind_code q.kind)
                && (eq_ℤ p.replicas q.replicas
                    && (str_eq p.language q.language
                        && (str_eq p.framework q.framework
                            && (str_eq p.version q.version
                                && (equal_observable_metrics fl p.metrics q.metrics
                                    && length p.operations == length q.operations))))))))
      and_also equal_operations_in depth p.operations q.operations

  unfoldable pub equal_services_in :
      ℕ → List (String × Option ServiceRef) → List (String × Option ServiceRef) → Option Bool
  unfolding equal_service get
  equal_services_in depth [] m = some true
  equal_services_in depth ((id, svc) ∷ svcs) m =
      equal_service depth svc (get id m) and_also equal_services_in depth svcs m

  -- Equal, to a depth of fallbacks.
  unfoldable pub equal : ℕ → Option (Schema F) → Option (Schema F) → Option Bool
  unfolding effective_schema_namespace equal_services_in equal_journeys equal_faults
  equal depth none none = some true
  equal depth none (some b) = some false
  equal depth (some a) none = some false
  equal depth (some a) (some b) =
      some (str_eq (effective_schema_namespace (some a)) (effective_schema_namespace (some b)))
      and_also some (length a.services == length b.services)
      and_also equal_services_in depth a.services b.services
      and_also some (equal_journeys a.journeys b.journeys)
      and_also some (equal_faults a.faults b.faults)
