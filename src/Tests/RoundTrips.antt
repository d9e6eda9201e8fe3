-- ===== src/Tests/RoundTrips.antt =====
-- The theorems about what the marshaller writes, applied to a small topology.
use xk6_otel_gen.Prelude.{◌≡◌, refl, true, none, some, [], ◌∷◌, arith}
use xk6_otel_gen.Prelude.Int.{ℤ, pos}
use xk6_otel_gen.Topology.Graph.{collect_from, lookup, get}
use xk6_otel_gen.Topology.Validate.Domain.{
  valid_fault_kind, valid_probability, validate_fault_schedule,
}
use xk6_otel_gen.Topology.Validate.Ranges.{fault_ranges}
use xk6_otel_gen.Prelude.Text.{cut}
use xk6_otel_gen.Topology.Enums.{FaultKind, MetricType, LogCondition, LogSeverity, TargetKind}
use xk6_otel_gen.Topology.Attributes.{Value, Entries}
use xk6_otel_gen.Topology.Types.{Operation, Step, Steps, MetricSpec, FaultTarget, FaultSpec}
use xk6_otel_gen.Topology.Parse.Lookup.{Parsed}
use xk6_otel_gen.Topology.Parse.Steps.{resolve_steps}
use xk6_otel_gen.Topology.Parse.Targets.{resolve_fault_target}
use xk6_otel_gen.Topology.Marshal.Tree.{marshal_fault_target, marshal_steps}
use xk6_otel_gen.Topology.Marshal.Steps.{IsRegistered, IsRestorable, resolve_steps-marshal_steps}
use xk6_otel_gen.Topology.Equal.Tree.{equal_faults}
use xk6_otel_gen.Topology.Marshal.Faults.{IsWritable, read_back, resolve_faults-marshal_fault}
use xk6_otel_gen.Topology.Marshal.Targets.{
  HasText, IsBetween, resolve_fault_target-marshal_fault_target,
}
use xk6_otel_gen.Topology.Marshal.Leaves.{EqLaws}
use mathlib.Core.List.{Memᴰ}
use xk6_otel_gen.Topology.Parse.Targets.{edge_target}
use xk6_otel_gen.Topology.Marshal.Tree.{identify_op}
use xk6_otel_gen.Topology.Graph.{
  outgoing_edges, all_schema_operations, service_operations, edges_in_calls, fallback_edges,
  collect,
}
use xk6_otel_gen.Tests.{whole, shop, shop_heap, shop_operation}

abbrev query_steps : Steps
query_steps =
    Steps.cons (Step.step none (Steps.cons (Step.step (some 1) Steps.end) Steps.end)) Steps.end

abbrev query_registered : IsRegistered shop_heap shop 1
unfolding get lookup
query_registered = record {
  svc = 1;
  is_service = refl;
  service_key = refl;
  operation_key = refl;
  service_named = refl;
  operation_named = refl;
}

resolve_steps-marshal_steps_example :
    resolve_steps shop_heap shop (marshal_steps shop_heap query_steps) [] 0 ≡ ([], query_steps)
unfolding IsRestorable
resolve_steps-marshal_steps_example =
    resolve_steps-marshal_steps shop_heap shop query_steps (((query_registered, refl), tt), tt) [] 0

abbrev query_target : FaultTarget
query_target = record {
  kind = TargetKind.operation;
  service = none;
  operation = some 1;
  edge = none;
}

abbrev browse_registered : IsRegistered shop_heap shop 0
unfolding get lookup
browse_registered = record {
  svc = 0;
  is_service = refl;
  service_key = refl;
  operation_key = refl;
  service_named = refl;
  operation_named = refl;
}

-- The edge 0, beside which the edge 1 leads to another operation.
query_edge : IsBetween shop_heap shop 0 0 1
unfolding cut browse_registered query_registered identify_op outgoing_edges all_schema_operations
    service_operations edges_in_calls fallback_edges collect
query_edge = record {
  from_named = record { registered = browse_registered; undotted = refl };
  to_named = record { registered = query_registered; undotted = refl };
  is_from = refl;
  is_to = refl;
  no_arrow = refl;
  is_listed = Memᴰ.head refl;
  is_only = (λ e. refl, (λ e. absurd cc, tt));
}

resolve_fault_target-marshal_fault_target_example :
    resolve_fault_target shop_heap shop (marshal_fault_target shop_heap (edge_target 0)) []
    ≡ Parsed.ok (edge_target 0)
resolve_fault_target-marshal_fault_target_example =
    resolve_fault_target-marshal_fault_target shop_heap shop (edge_target 0)
      (HasText.edge 0 0 1 query_edge) []

abbrev query_metric : MetricSpec ℤ
query_metric = record {
  name = "rows";
  type = MetricType.counter;
  unit = "";
  baseline = pos 4;
  condition = LogCondition.on_success;
  attributes = some (Entries.entry "unit.kind" (Value.str "row") Entries.no_entry);
  when_fault =
      some record { kind = FaultKind.crash; delta = pos 0; value = pos 9; has_value = true };
}

abbrev logged_query : Operation ℤ
logged_query = record (shop_operation 1) {
  log_events =
      record {
        name = "slow";
        severity = LogSeverity.warn;
        condition = LogCondition.on_error;
        body = "";
        attributes = none;
      }
      ∷ [];
  metrics = query_metric ∷ [];
  state_updates =
      record { key = "load"; delta = pos 1; condition = LogCondition.always; when_fault = none }
      ∷ [];
}

whole-EqLaws : EqLaws whole
whole-EqLaws = record { eq_self = λ x n. ground arith; eq_sym = λ x y e. ground (arith, e) }

abbrev query_fault : FaultSpec ℤ
query_fault = record {
  target = query_target;
  kind = FaultKind.crash;
  severity = record { probability = pos 1; multiplier = pos 0; add = pos 0; value = pos 0 };
  schedule = record { at = pos 5; intensity = pos 1 } ∷ [];
}

query_fault-IsWritable : IsWritable whole shop_heap shop query_fault
unfolding cut query_registered
query_fault-IsWritable = record {
  has_text = HasText.operation 1 (record { registered = query_registered; undotted = refl });
  multiplier = refl;
  value = refl;
}

resolve_faults-marshal_fault_example :
    ((read_back whole (λ ks. ks) 1 shop_heap shop 0 (query_fault ∷ [])).0 ≡ [])
    × (equal_faults whole shop_heap shop_heap
          (read_back whole (λ ks. ks) 1 shop_heap shop 0 (query_fault ∷ [])).1
          (query_fault ∷ [])
        ≡ true)
unfolding collect_from fault_ranges valid_fault_kind valid_probability validate_fault_schedule
resolve_faults-marshal_fault_example =
    resolve_faults-marshal_fault whole whole-EqLaws (λ ks. ks) 1 shop_heap shop 0 (query_fault ∷ [])
      (query_fault-IsWritable, tt) refl
