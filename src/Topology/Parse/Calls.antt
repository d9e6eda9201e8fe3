-- ===== src/Topology/Parse/Calls.antt =====
-- resolveCallNode and resolveRecoveryPolicy of topology/parse.go: each edge is a new object.
use xk6_otel_gen.Prelude.{
  ℕ, suc, String, if◌then◌else◌, Bool, true, false, Option, none, some, List, [], ◌∷◌, ◌++◌,
}
use xk6_otel_gen.Prelude.Int.{pos}
use xk6_otel_gen.Topology.Float.{Float64}
use xk6_otel_gen.Topology.Attributes.{Attributes}
use xk6_otel_gen.Topology.Types.{
  Schema, Edge, RecoveryPolicy, CallNode, CallNodes, OperationRef, EdgeRef,
  default_retry_base_delay,
}
use xk6_otel_gen.Topology.Errors.{FieldPath, ◌/ₖ◌, ◌/ᵢ◌}
use xk6_otel_gen.Topology.Raw.{
  RawCallTarget, RawCallFields, RawCallNode, RawCallNodes, RawRecoveryPolicy,
}
use xk6_otel_gen.Topology.Tokens.{parse_protocol, parse_backoff, parse_exhausted_action}
use xk6_otel_gen.Topology.Parse.{or_default, is_set, resolve_latency}
use xk6_otel_gen.Topology.Parse.Store.{Store, new_edge, put_edge}
use xk6_otel_gen.Topology.Parse.Lookup.{
  ParseErrors, Parsed, parse_error, unless_failed, lookup_operation_at_path,
}

-- len(nodes) > 0
abbrev pub has_calls : {F : Type 0} → RawCallNodes F → Bool
has_calls RawCallNodes.end = false
has_calls (RawCallNodes.cons n ns) = true

-- What a loop over raw nodes has: the errors, the results and the store.
abbrev pub Collected : Type 0 → Type 0 → Type 0
Collected F A = ParseErrors × (A × Store F)

-- What a round of the loop over the fallbacks does with the node that it resolved.
abbrev pub fallback_of : FieldPath → Parsed CallNode → Parsed EdgeRef
fallback_of path (Parsed.failed es) = Parsed.failed es
fallback_of path (Parsed.ok (CallNode.call (some e) parallel)) = Parsed.ok e
fallback_of path (Parsed.ok (CallNode.call none parallel)) = parse_error path
fallback_of path (Parsed.ok CallNode.null) = parse_error path

module _ {F : Type 0} where
  -- The append of one round to the results of the later rounds.
  abbrev pub with_node : Parsed CallNode → Collected F CallNodes → Collected F CallNodes
  with_node (Parsed.ok n) (errs, (ns, st)) = (errs, (CallNodes.cons n ns, st))
  with_node (Parsed.failed es) (errs, (ns, st)) = (es ++ errs, (ns, st))

  -- node.Edge.From = owningOp
  abbrev pub own_edge : OperationRef → EdgeRef → Store F → Store F
  own_edge owner e st = put_edge e (record (st.heap.edge e) { source = some owner }) st

  abbrev pub owned : OperationRef → Parsed EdgeRef → Store F → Store F
  owned owner (Parsed.ok e) st = own_edge owner e st
  owned owner (Parsed.failed es) st = st

  abbrev pub with_fallback :
      Parsed EdgeRef → Collected F (List (Option EdgeRef)) → Collected F (List (Option EdgeRef))
  with_fallback (Parsed.ok e) (errs, (fs, st)) = (errs, (some e ∷ fs, st))
  with_fallback (Parsed.failed es) (errs, (fs, st)) = (es ++ errs, (fs, st))

  abbrev pub parallel_node : Collected F CallNodes → Parsed CallNode × Store F
  parallel_node (errs, (ns, st)) = (unless_failed errs (CallNode.call none ns), st)

module _ (fl : Float64) where
  open fl use {F, zero_f}

  unfoldable pub resolve_edge :
      OperationRef → OperationRef → RawCallFields F → Option RecoveryPolicy → Edge F
  unfolding resolve_latency
  resolve_edge owner target rc policy = record {
    source = some owner;
    target = some target;
    protocol = parse_protocol rc.protocol;
    latency = resolve_latency rc.latency;
    error_rate = or_default rc.error_rate zero_f;
    timeout = or_default rc.timeout (pos 0);
    retries = or_default rc.retries (pos 0);
    retry_backoff = parse_backoff rc.retry_backoff;
    retry_base_delay = or_default rc.retry_base_delay default_retry_base_delay;
    on_failure = policy;
  }

  -- The edge that a single call becomes, once its policy is resolved.
  unfoldable pub edge_node :
      OperationRef
      → OperationRef
      → RawCallFields F
      → Parsed (Option RecoveryPolicy) × Store F
      → Parsed CallNode × Store F
  unfolding resolve_edge new_edge
  edge_node owner target rc (Parsed.failed es, st) = (Parsed.failed es, st)
  edge_node owner target rc (Parsed.ok policy, st) = (
    Parsed.ok (CallNode.call (some st.edges) CallNodes.end),
    new_edge (resolve_edge owner target rc policy) st,
  )

  abbrev pub resolved_policy :
      String
      → Attributes
      → Collected F (List (Option EdgeRef))
      → Parsed (Option RecoveryPolicy) × Store F
  resolved_policy on_exhausted default_response (errs, (fs, st)) = (
    unless_failed errs (
        some record {
          fallback = fs;
          on_exhausted = parse_exhausted_action on_exhausted;
          default_response = default_response;
        }),
    st,
  )

  -- The error of a target that is not found, or the edge; `policy` is what the call of
  -- resolveRecoveryPolicy in that case returns.
  abbrev pub single_node :
      OperationRef
      → Parsed OperationRef
      → RawCallFields F
      → Store F
      → Parsed (Option RecoveryPolicy) × Store F
      → Parsed CallNode × Store F
  single_node owner (Parsed.failed es) rc st policy = (Parsed.failed es, st)
  single_node owner (Parsed.ok target) rc st policy = edge_node owner target rc policy

  module _ (s : Schema F) (owner : OperationRef) where
    abbrev pub target_at : Option RawCallTarget → FieldPath → Store F → Parsed OperationRef
    target_at none path st = parse_error path
    target_at (some to) path st =
        lookup_operation_at_path st.heap s to.service to.operation (path /ₖ "to")

    abbrev pub call_target : RawCallFields F → FieldPath → Store F → Parsed OperationRef
    call_target rc path st = target_at rc.target path st

    unfoldable mutual
      pub resolve_call_node : RawCallNode F → FieldPath → Store F → Parsed CallNode × Store F
      resolve_call_node RawCallNode.null path st = (parse_error path, st)
      resolve_call_node (RawCallNode.call rc parallel on_failure) path st =
          let children = resolve_calls parallel (path /ₖ "parallel") 0 st in
          let policy = resolve_recovery_policy on_failure (path /ₖ "on_failure") st in
          if is_set rc.target
          then if has_calls parallel
            then (parse_error path, st)
            else single_node owner (call_target rc path st) rc st policy
          else if has_calls parallel
          then parallel_node children
          else (parse_error path, st)

      -- The loop over the calls of an operation or a parallel group.
      pub resolve_calls : RawCallNodes F → FieldPath → ℕ → Store F → Collected F CallNodes
      resolve_calls RawCallNodes.end path i st = ([], (CallNodes.end, st))
      resolve_calls (RawCallNodes.cons n ns) path i st =
          let (node, st') = resolve_call_node n (path /ᵢ i) st in
          with_node node (resolve_calls ns path (suc i) st')

      pub resolve_recovery_policy :
          RawRecoveryPolicy F → FieldPath → Store F → Parsed (Option RecoveryPolicy) × Store F
      resolve_recovery_policy RawRecoveryPolicy.no_policy path st = (Parsed.ok none, st)
      resolve_recovery_policy (RawRecoveryPolicy.policy raws on_exhausted default_response) path
            st =
          resolved_policy on_exhausted default_response
            (resolve_fallbacks raws (path /ₖ "fallback") 0 st)

      pub resolve_fallbacks :
          RawCallNodes F → FieldPath → ℕ → Store F → Collected F (List (Option EdgeRef))
      resolve_fallbacks RawCallNodes.end path i st = ([], ([], st))
      resolve_fallbacks (RawCallNodes.cons n ns) path i st =
          let (node, st') = resolve_call_node n (path /ᵢ i) st in
          let fallback = fallback_of (path /ᵢ i) node in
          with_fallback fallback (resolve_fallbacks ns path (suc i) (owned owner fallback st'))
