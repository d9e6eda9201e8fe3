-- ===== src/Topology/Parse/Targets.antt =====
-- resolveFaultTarget of topology/parse.go.
use xk6_otel_gen.Prelude.{String, Option, some, none, ◌||◌, str_eq, if◌then◌else◌}
use xk6_otel_gen.Prelude.Text.{cut}
use xk6_otel_gen.Topology.Enums.{TargetKind}
use xk6_otel_gen.Topology.Types.{Heap, Schema, FaultTarget, ServiceRef, OperationRef, EdgeRef}
use xk6_otel_gen.Topology.Errors.{FieldPath, ◌/ₖ◌}
use xk6_otel_gen.Topology.Graph.{get}
use xk6_otel_gen.Topology.Parse.Lookup.{
  Parsed, parse_error, parse_operation_ref, lookup_operation_at_path, find_edge,
}

abbrev pub node_target : ServiceRef → FaultTarget
node_target svc = record {
  kind = TargetKind.node;
  service = some svc;
  operation = none;
  edge = none;
}

abbrev pub operation_target : OperationRef → FaultTarget
operation_target op = record {
  kind = TargetKind.operation;
  service = none;
  operation = some op;
  edge = none;
}

abbrev pub edge_target : EdgeRef → FaultTarget
edge_target e = record { kind = TargetKind.edge; service = none; operation = none; edge = some e }

-- The rest of a function after a call that may fail.
infixl 10 ◌and_then◌
abbrev pub ◌and_then◌ {ℓ κ} : {A : Type ℓ} {B : Type κ} → Parsed A → (A → Parsed B) → Parsed B
Parsed.ok a and_then next = next a
Parsed.failed es and_then next = Parsed.failed es

module _ {F : Type 0} (h : Heap F) (s : Schema F) where
  abbrev found_service : FieldPath → Option ServiceRef → Parsed FaultTarget
  found_service path none = parse_error path
  found_service path (some svc) = Parsed.ok (node_target svc)

  unfoldable pub resolve_node_target : String → FieldPath → Parsed FaultTarget
  resolve_node_target rest path = found_service path (get rest s.services)

  unfoldable pub resolve_operation_target : String → FieldPath → Parsed FaultTarget
  resolve_operation_target rest path = parse_operation_ref rest path and_then λ names.
      lookup_operation_at_path h s names.0 names.1 path and_then λ op.
      Parsed.ok (operation_target op)

  abbrev found_edge : FieldPath → Option EdgeRef → Parsed FaultTarget
  found_edge path none = parse_error path
  found_edge path (some e) = Parsed.ok (edge_target e)

  -- The edge case, from the two ends of "<from>-><to>".
  unfoldable pub resolve_edge_between : String → String → FieldPath → Parsed FaultTarget
  resolve_edge_between from to path = parse_operation_ref from (path /ₖ "from") and_then λ source.
      parse_operation_ref to (path /ₖ "to") and_then λ target.
      lookup_operation_at_path h s source.0 source.1 (path /ₖ "from") and_then λ from_op.
      lookup_operation_at_path h s target.0 target.1 (path /ₖ "to") and_then λ to_op.
      found_edge path (find_edge h s from_op to_op)

  abbrev resolve_ends : FieldPath → Option (String × String) → Parsed FaultTarget
  resolve_ends path none = parse_error path
  resolve_ends path (some (from, to)) =
      if str_eq from "" || str_eq to "" then parse_error path else resolve_edge_between from to path

  unfoldable pub resolve_edge_target : String → FieldPath → Parsed FaultTarget
  resolve_edge_target rest path = resolve_ends path (cut "->" rest)

  -- The switch on the text before the colon.
  unfoldable pub resolve_target_of : String → String → FieldPath → Parsed FaultTarget
  resolve_target_of kind rest path =
      if str_eq kind "node"
      then resolve_node_target rest path
      else if str_eq kind "operation"
      then resolve_operation_target rest path
      else if str_eq kind "edge"
      then resolve_edge_target rest path
      else parse_error path

  abbrev resolve_kind : FieldPath → Option (String × String) → Parsed FaultTarget
  resolve_kind path none = parse_error path
  resolve_kind path (some (kind, rest)) =
      if str_eq rest "" then parse_error path else resolve_target_of kind rest path

  unfoldable pub resolve_fault_target : String → FieldPath → Parsed FaultTarget
  resolve_fault_target spec path = resolve_kind path (cut ":" spec)
