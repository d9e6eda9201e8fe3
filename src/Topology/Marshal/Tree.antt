-- ===== src/Topology/Marshal/Tree.antt =====
-- topology/marshal.go: calls, steps and fault targets, with names for pointers. The traversal of the
-- fallbacks of fallbacks has a depth.
use Prim.Native.String.{◌++◌ as ◌++ₛ◌}
use xk6_otel_gen.Prelude.{ℕ, zero, suc, String, ◌||◌, Option, none, some, List, [], ◌∷◌}
use xk6_otel_gen.Prelude.Int.{pos, eq_ℤ}
use xk6_otel_gen.Topology.Enums.{BackoffPolicy, ExhaustedAction, TargetKind}
use xk6_otel_gen.Topology.Float.{Float64}
use xk6_otel_gen.Topology.Attributes.{Attributes, omit_empty}
use xk6_otel_gen.Topology.Types.{
  Heap, Edge, RecoveryPolicy, CallNode, CallNodes, Step, Steps, FaultTarget, ServiceRef,
  OperationRef, EdgeRef, default_retry_base_delay,
}
use xk6_otel_gen.Topology.Raw.{
  RawCallTarget, RawCallFields, RawCallNode, RawCallNodes, RawRecoveryPolicy, RawStep, RawSteps,
}
use xk6_otel_gen.Topology.Tokens.{protocol_string, backoff_string, exhausted_action_string}
use xk6_otel_gen.Topology.Marshal.{unless, unless_zero, marshal_latency}

-- Two results, where both are there.
abbrev pub both {ℓ κ μ} :
    {A : Type ℓ} {B : Type κ} {C : Type μ} → (A → B → C) → Option A → Option B → Option C
both f none b = none
both f (some a) none = none
both f (some a) (some b) = some (f a b)

module _ {F : Type 0} (h : Heap F) where
  abbrev identify_in : Option ServiceRef → String → String
  identify_in none name = "<nil>." ++ₛ name
  identify_in (some svc) name = (h.service svc).name ++ₛ ("." ++ₛ name)

  -- identifyOp of topology/validate.go
  unfoldable pub identify_op : Option OperationRef → String
  identify_op none = "<nil>"
  identify_op (some op) = identify_in (h.operation op).service (h.operation op).name

  abbrev pub name_of_service : Option ServiceRef → String
  name_of_service none = ""
  name_of_service (some svc) = (h.service svc).name

  abbrev pub marshal_node_target : Option ServiceRef → String
  marshal_node_target none = "node:"
  marshal_node_target (some svc) = "node:" ++ₛ (h.service svc).name

  abbrev pub marshal_edge_target : Option EdgeRef → String
  marshal_edge_target none = "edge:"
  marshal_edge_target (some e) =
      "edge:" ++ₛ (identify_op (h.edge e).source ++ₛ ("->" ++ₛ identify_op (h.edge e).target))

  -- The switch of marshalFaultTarget.
  unfoldable pub marshal_target_of : TargetKind → FaultTarget → String
  marshal_target_of TargetKind.node t = marshal_node_target t.service
  marshal_target_of TargetKind.operation t = "operation:" ++ₛ identify_op t.operation
  marshal_target_of TargetKind.edge t = marshal_edge_target t.edge
  marshal_target_of (TargetKind.other k) t = "unknown:"

  unfoldable pub marshal_fault_target : FaultTarget → String
  unfolding marshal_target_of
  marshal_fault_target t = marshal_target_of t.kind t

  unfoldable mutual
    pub marshal_step : Step → RawStep
    marshal_step Step.null = RawStep.step "" "" RawSteps.end
    marshal_step (Step.step none parallel) = RawStep.step "" "" (marshal_steps parallel)
    marshal_step (Step.step (some op) parallel) =
        RawStep.step (name_of_service (h.operation op).service) (h.operation op).name RawSteps.end

    pub marshal_steps : Steps → RawSteps
    marshal_steps Steps.end = RawSteps.end
    marshal_steps (Steps.cons s ss) = RawSteps.cons (marshal_step s) (marshal_steps ss)

  unfoldable pub marshal_call_target : Option OperationRef → RawCallTarget
  marshal_call_target none = record { service = ""; operation = "" }
  marshal_call_target (some op) = record {
    service = name_of_service (h.operation op).service;
    operation = (h.operation op).name;
  }

abbrev pub backoff_text : BackoffPolicy → String
unfolding backoff_string
backoff_text BackoffPolicy.exponential = ""
backoff_text backoff = backoff_string backoff

abbrev pub exhausted_text : ExhaustedAction → String
unfolding exhausted_action_string
exhausted_text ExhaustedAction.propagate = ""
exhausted_text action = exhausted_action_string action

module _ (fl : Float64) where
  open fl use {F, zero_f, one_f, eq_f}

  abbrev pub no_call_fields : RawCallFields F
  no_call_fields = record {
    target = none;
    protocol = "";
    latency = none;
    error_rate = none;
    timeout = none;
    retries = none;
    retry_backoff = "";
    retry_base_delay = none;
  }

  -- &rawCallNode{}
  abbrev pub empty_call : RawCallNode F
  empty_call = RawCallNode.call no_call_fields RawCallNodes.end RawRecoveryPolicy.no_policy

  module _ (h : Heap F) where
    unfoldable pub marshal_edge_fields : Edge F → RawCallFields F
    unfolding marshal_call_target protocol_string marshal_latency backoff_string
    marshal_edge_fields e = record {
      target = some (marshal_call_target h e.target);
      protocol = protocol_string e.protocol;
      latency = marshal_latency e.latency;
      error_rate = unless_zero fl e.error_rate;
      timeout = unless (eq_ℤ e.timeout (pos 0)) e.timeout;
      retries = unless (eq_ℤ e.retries (pos 0)) e.retries;
      retry_backoff = backoff_text e.retry_backoff;
      retry_base_delay =
          unless
            (eq_ℤ e.retry_base_delay (pos 0) || eq_ℤ e.retry_base_delay default_retry_base_delay)
            e.retry_base_delay;
    }

    module _ (fallback : Option EdgeRef → Option (RawCallNode F)) where
      unfoldable pub marshal_fallbacks : List (Option EdgeRef) → Option (RawCallNodes F)
      marshal_fallbacks [] = some RawCallNodes.end
      marshal_fallbacks (e ∷ es) = both RawCallNodes.cons (fallback e) (marshal_fallbacks es)

      abbrev pub policy_with :
          ExhaustedAction → Attributes → Option (RawCallNodes F) → Option (RawRecoveryPolicy F)
      policy_with action response none = none
      policy_with action response (some raws) =
          some (RawRecoveryPolicy.policy raws (exhausted_text action) (omit_empty response))

      unfoldable pub marshal_recovery_policy : Option RecoveryPolicy → Option (RawRecoveryPolicy F)
      unfolding marshal_fallbacks omit_empty
      marshal_recovery_policy none = some RawRecoveryPolicy.no_policy
      marshal_recovery_policy (some rp) =
          policy_with rp.on_exhausted rp.default_response (marshal_fallbacks rp.fallback)

    abbrev pub call_with : RawCallFields F → Option (RawRecoveryPolicy F) → Option (RawCallNode F)
    call_with fields none = none
    call_with fields (some raw) = some (RawCallNode.call fields RawCallNodes.end raw)

    -- marshalEdge, for a depth of fallbacks of fallbacks; `none` past it.
    unfoldable pub marshal_edge : ℕ → Option EdgeRef → Option (RawCallNode F)
    unfolding marshal_edge_fields marshal_recovery_policy
    marshal_edge depth none = some empty_call
    marshal_edge zero (some e) = none
    marshal_edge (suc depth) (some e) =
        call_with (marshal_edge_fields (h.edge e))
          (marshal_recovery_policy (marshal_edge depth) (h.edge e).on_failure)

    abbrev pub parallel_call : Option (RawCallNodes F) → Option (RawCallNode F)
    parallel_call none = none
    parallel_call (some children) =
        some (RawCallNode.call no_call_fields children RawRecoveryPolicy.no_policy)

    unfoldable mutual
      unfolding marshal_edge

      pub marshal_call_node : ℕ → CallNode → Option (RawCallNode F)
      marshal_call_node depth CallNode.null = some empty_call
      marshal_call_node depth (CallNode.call (some e) parallel) = marshal_edge depth (some e)
      marshal_call_node depth (CallNode.call none parallel) =
          parallel_call (marshal_call_nodes depth parallel)

      pub marshal_call_nodes : ℕ → CallNodes → Option (RawCallNodes F)
      marshal_call_nodes depth CallNodes.end = some RawCallNodes.end
      marshal_call_nodes depth (CallNodes.cons n ns) =
          both RawCallNodes.cons (marshal_call_node depth n) (marshal_call_nodes depth ns)
