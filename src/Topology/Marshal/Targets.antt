-- ===== src/Topology/Marshal/Targets.antt =====
-- The fault targets that topology/marshal.go writes are read back by resolveFaultTarget of
-- topology/parse.go.
use Prim.Native.String.{◌++◌ as ◌++ₛ◌}
use text.Mathlib.TextLemmas.{append_assoc}
use xk6_otel_gen.Prelude.{true, All, ==_self, ◌≡◌, refl, subst, String, false, some, none, str_eq}
use xk6_otel_gen.Prelude.Text.{cut, cut_char, cut_arrow, append-not_empty}
use xk6_otel_gen.Topology.Types.{Heap, Schema, FaultTarget, ServiceRef, OperationRef, EdgeRef}
use xk6_otel_gen.Topology.Errors.{FieldPath, ◌/ₖ◌}
use mathlib.Core.List.{Memᴰ}
use xk6_otel_gen.Topology.Graph.{get, outgoing_edges}
use xk6_otel_gen.Topology.Parse.Lookup.{Parsed, parse_operation_ref, joins}
use xk6_otel_gen.Topology.Parse.Lookup.First.{find_edge-only}
use xk6_otel_gen.Topology.Parse.Targets.{
  resolve_fault_target, resolve_target_of, resolve_operation_target, resolve_edge_target,
  resolve_edge_between, resolve_node_target, node_target, operation_target, edge_target,
}
use xk6_otel_gen.Topology.Marshal.Tree.{identify_op, marshal_fault_target}
use xk6_otel_gen.Topology.Marshal.Steps.{IsRegistered, lookup_registered}

no_colon : (cut ":" "node" ≡ none) × (cut ":" "operation" ≡ none) × (cut ":" "edge" ≡ none)
unfolding cut
no_colon = (refl, refl, refl)

module _ {F : Type 0} (h : Heap F) (s : Schema F) where
  abbrev dotted : (op : OperationRef) → IsRegistered h s op → String
  dotted op registered = (h.service registered.svc).name ++ₛ ("." ++ₛ (h.operation op).name)

  -- An operation whose service has no dot in its name.
  pub record IsNamed (op : OperationRef) : Type 0 where
    pub registered : IsRegistered h s op
    pub undotted : cut "." (h.service registered.svc).name ≡ none

  -- An edge of the schema that is the only one between two operations, where the first's text has no
  -- arrow.
  pub record IsBetween (e : EdgeRef) (from to : OperationRef) : Type 0 where
    pub from_named : IsNamed from
    pub to_named : IsNamed to
    pub is_from : (h.edge e).source ≡ some from
    pub is_to : (h.edge e).target ≡ some to
    pub no_arrow : cut "->" (identify_op h (some from)) ≡ none
    pub is_listed : Memᴰ e (outgoing_edges h s)
    pub is_only : All (λ x. joins h from to x ≡ true → x ≡ e) (outgoing_edges h s)

  -- The targets that can be written by name.
  pub data HasText : FaultTarget → Type 0 where
    node :
        (svc : ServiceRef)
        → get (h.service svc).name s.services ≡ some svc
        → str_eq (h.service svc).name "" ≡ false
        → HasText (node_target svc)
    operation : (op : OperationRef) → IsNamed op → HasText (operation_target op)
    edge : (e : EdgeRef) (from to : OperationRef) → IsBetween e from to → HasText (edge_target e)

  identify_registered :
      (op : OperationRef) (registered : IsRegistered h s op)
      → identify_op h (some op) ≡ dotted op registered
  unfolding identify_op
  identify_registered op registered = rw registered.is_service refl

  parse_dotted :
      (op : OperationRef) (named : IsNamed op) (path : FieldPath)
      → parse_operation_ref (dotted op named.registered) path
        ≡ Parsed.ok ((h.service named.registered.svc).name, (h.operation op).name)
  unfolding parse_operation_ref
  parse_dotted op named path =
      rw
        (
          cut_char "." (h.service named.registered.svc).name (h.operation op).name named.undotted,
          named.registered.service_named,
          named.registered.operation_named,
        )
        refl

  resolve_dotted :
      (op : OperationRef) (named : IsNamed op) (path : FieldPath)
      → resolve_operation_target h s (dotted op named.registered) path
        ≡ Parsed.ok (operation_target op)
  unfolding resolve_operation_target
  resolve_dotted op named path =
      rw (parse_dotted op named path, lookup_registered h s op named.registered path) refl

  between_joins :
      (e : EdgeRef) (from to : OperationRef) → IsBetween e from to → joins h from to e ≡ true
  between_joins e from to b = rw (b.is_from, b.is_to, ==_self from, ==_self to) refl

  resolve_between :
      (e : EdgeRef) (from to : OperationRef) (b : IsBetween e from to) (path : FieldPath)
      → resolve_edge_between h s
          (dotted from b.from_named.registered)
          (dotted to b.to_named.registered)
          path
        ≡ Parsed.ok (edge_target e)
  unfolding resolve_edge_between
  resolve_between e from to b path =
      rw
        (
          parse_dotted from b.from_named (path /ₖ "from"),
          parse_dotted to b.to_named (path /ₖ "to"),
          lookup_registered h s from b.from_named.registered (path /ₖ "from"),
          lookup_registered h s to b.to_named.registered (path /ₖ "to"),
          find_edge-only h from to s e (between_joins e from to b) b.is_only b.is_listed,
        )
        refl

  -- A target of a kind whose text is not empty.
  resolve_prefixed :
      (kind rest : String) (path : FieldPath)
      → cut ":" kind ≡ none
      → str_eq rest "" ≡ false
      → resolve_fault_target h s (kind ++ₛ (":" ++ₛ rest)) path
        ≡ resolve_target_of h s kind rest path
  unfolding resolve_fault_target
  resolve_prefixed kind rest path no_colon not_empty =
      rw (cut_char ":" kind rest no_colon, not_empty) refl

  restored_node :
      (svc : ServiceRef)
      → get (h.service svc).name s.services ≡ some svc
      → str_eq (h.service svc).name "" ≡ false
      → (path : FieldPath)
      → resolve_fault_target h s (marshal_fault_target h (node_target svc)) path
        ≡ Parsed.ok (node_target svc)
  unfolding marshal_fault_target resolve_target_of resolve_node_target
  restored_node svc found named path =
      rw
        (
          append_assoc "node" ":" (h.service svc).name,
          resolve_prefixed "node" (h.service svc).name path no_colon.0 named,
          found,
        )
        refl

  restored_operation :
      (op : OperationRef) (named : IsNamed op) (path : FieldPath)
      → resolve_fault_target h s (marshal_fault_target h (operation_target op)) path
        ≡ Parsed.ok (operation_target op)
  unfolding marshal_fault_target resolve_target_of
  restored_operation op named path =
      rw
        (
          identify_registered op named.registered,
          append_assoc "operation" ":" (dotted op named.registered),
          resolve_prefixed "operation" (dotted op named.registered) path no_colon.1 (
              append-not_empty (h.service named.registered.svc).name _
                named.registered.service_named),
          resolve_dotted op named path,
        )
        refl

  resolve_arrow :
      (e : EdgeRef) (from to : OperationRef) (b : IsBetween e from to) (path : FieldPath)
      → resolve_edge_target h s
          (dotted from b.from_named.registered ++ₛ ("->" ++ₛ dotted to b.to_named.registered))
          path
        ≡ Parsed.ok (edge_target e)
  unfolding resolve_edge_target
  resolve_arrow e from to b path =
      rw
        (
          cut_arrow (dotted from b.from_named.registered) (dotted to b.to_named.registered) (
              subst (λ text. cut "->" text ≡ none)
                (identify_registered from b.from_named.registered) b.no_arrow),
          append-not_empty (h.service b.from_named.registered.svc).name
              ("." ++ₛ (h.operation from).name) b.from_named.registered.service_named,
          append-not_empty (h.service b.to_named.registered.svc).name
              ("." ++ₛ (h.operation to).name) b.to_named.registered.service_named,
          resolve_between e from to b path,
        )
        refl

  restored_edge :
      (e : EdgeRef) (from to : OperationRef) (b : IsBetween e from to) (path : FieldPath)
      → resolve_fault_target h s (marshal_fault_target h (edge_target e)) path
        ≡ Parsed.ok (edge_target e)
  unfolding marshal_fault_target resolve_target_of
  restored_edge e from to b path =
      let text =
        dotted from b.from_named.registered ++ₛ ("->" ++ₛ dotted to b.to_named.registered) in
      rw
        (
          b.is_from,
          b.is_to,
          identify_registered from b.from_named.registered,
          identify_registered to b.to_named.registered,
          append_assoc "edge" ":" text,
          resolve_prefixed "edge" text path no_colon.2 (
              append-not_empty (dotted from b.from_named.registered) _ (
                append-not_empty (h.service b.from_named.registered.svc).name _
                  b.from_named.registered.service_named)),
          resolve_arrow e from to b path,
        )
        refl

  -- Reading the text of a fault target gives the target, at any path: for a service or an operation that
  -- stands in the schema under its name, and for the only edge between two such operations, where a
  -- service of an operation has no dot in its name and the first operation's text no arrow.
  pub resolve_fault_target-marshal_fault_target :
      (t : FaultTarget)
      → HasText t
      → (path : FieldPath) → resolve_fault_target h s (marshal_fault_target h t) path ≡ Parsed.ok t
  resolve_fault_target-marshal_fault_target _ (HasText.node svc found named) path =
      restored_node svc found named path
  resolve_fault_target-marshal_fault_target _ (HasText.operation op named) path =
      restored_operation op named path
  resolve_fault_target-marshal_fault_target _ (HasText.edge e from to b) path =
      restored_edge e from to b path
