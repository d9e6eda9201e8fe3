-- ===== src/Topology/Marshal/Schema.antt =====
-- topology/marshal.go: the services, journeys and faults, and MarshalYAML. `sort` is sort.Strings.
use xk6_otel_gen.Prelude.{
  ℕ, String, ◌||◌, Option, none, some, List, [], ◌∷◌, map, str_eq, if◌then◌else◌,
}
use xk6_otel_gen.Prelude.Int.{pos, eq_ℤ}
use xk6_otel_gen.Prelude.Text.{string_default}
use xk6_otel_gen.Topology.Float.{Float64}
use xk6_otel_gen.Topology.Types.{
  Heap, Schema, Service, Journey, FaultSpec, ServiceRef, OperationRef,
}
use xk6_otel_gen.Topology.Graph.{get}
use xk6_otel_gen.Topology.Raw.{
  RawSchema, RawService, RawOperation, RawJourney, RawFault, RawCallNodes,
}
use xk6_otel_gen.Topology.Tokens.{service_kind_string, fault_kind_string}
use xk6_otel_gen.Topology.Parse.Schema.{
  default_namespace, no_raw_service, no_raw_operation, no_raw_journey,
}
use xk6_otel_gen.Topology.Marshal.{
  unless, marshal_log_events, marshal_metrics, marshal_state_updates, marshal_profile,
  marshal_observable_metrics, marshal_severity, marshal_fault_schedule,
}
use xk6_otel_gen.Topology.Marshal.Tree.{
  both, marshal_call_nodes, marshal_fault_target, marshal_steps,
}

-- The keys of a map, in order.
abbrev pub sorted_keys {ℓ} :
    {V : Type ℓ} → (List String → List String) → List (String × V) → List String
sorted_keys sort m = sort (map (λ entry. entry.0) m)

unfoldable pub effective_schema_namespace : {F : Type 0} → Option (Schema F) → String
effective_schema_namespace none = default_namespace
effective_schema_namespace (some s) = string_default s.namespace default_namespace

module _ (fl : Float64) (sort : List String → List String) (h : Heap fl.F) (depth : ℕ) where
  open fl use {F, one_f, eq_f}

  unfoldable pub marshal_operation : String → Option OperationRef → Option (RawOperation F)
  unfolding marshal_call_nodes marshal_log_events marshal_metrics marshal_state_updates
      marshal_profile
  marshal_operation name none = some (record (no_raw_operation fl) { name = name })
  marshal_operation name (some op) = with_raw (marshal_call_nodes fl h depth (h.operation op).calls)
    where
      with_raw : Option (RawCallNodes F) → Option (RawOperation F)
      with_raw none = none
      with_raw (some calls) = some record {
        name = (h.operation op).name;
        calls = calls;
        log_events = marshal_log_events (h.operation op).log_events;
        metrics = marshal_metrics fl (h.operation op).metrics;
        state_updates = marshal_state_updates fl (h.operation op).state_updates;
        profile = marshal_profile fl (h.operation op).profile;
      }

  -- The loop over the sorted names.
  unfoldable pub marshal_operations :
      List String → List (String × Option OperationRef) → Option (List (Option (RawOperation F)))
  unfolding marshal_operation get
  marshal_operations [] ops = some []
  marshal_operations (name ∷ names) ops =
      both (λ ro ros. some ro ∷ ros) (marshal_operation name (get name ops))
        (marshal_operations names ops)

  unfoldable pub raw_service_of : Service F → String → List (Option (RawOperation F)) → RawService F
  unfolding service_kind_string marshal_observable_metrics
  raw_service_of svc schema_namespace operations = record {
    namespace =
        if str_eq svc.namespace "" || str_eq svc.namespace schema_namespace
        then ""
        else svc.namespace;
    kind = service_kind_string svc.kind;
    replicas = unless (eq_ℤ svc.replicas (pos 1)) svc.replicas;
    language = svc.language;
    framework = svc.framework;
    version = svc.version;
    metrics = marshal_observable_metrics fl svc.metrics;
    operations = operations;
  }

  unfoldable pub marshal_service : Option ServiceRef → String → Option (RawService F)
  unfolding marshal_operations raw_service_of
  marshal_service none schema_namespace = some (no_raw_service fl)
  marshal_service (some svc) schema_namespace =
      with_operations (
        marshal_operations (sorted_keys sort (h.service svc).operations) (h.service svc).operations)
    where
      with_operations : Option (List (Option (RawOperation F))) → Option (RawService F)
      with_operations none = none
      with_operations (some ros) = some (raw_service_of (h.service svc) schema_namespace ros)

  unfoldable pub marshal_services :
      String
      → List String
      → List (String × Option ServiceRef)
      → Option (List (String × Option (RawService F)))
  unfolding marshal_service get
  marshal_services schema_namespace [] services = some []
  marshal_services schema_namespace (id ∷ ids) services =
      both (λ rs rest. (id, some rs) ∷ rest) (marshal_service (get id services) schema_namespace)
        (marshal_services schema_namespace ids services)

  unfoldable pub marshal_journey : Option (Journey F) → RawJourney F
  unfolding marshal_steps
  marshal_journey none = no_raw_journey fl
  marshal_journey (some j) = record {
    steps = marshal_steps h j.steps;
    weight = unless (eq_f j.weight one_f) j.weight;
  }

  unfoldable pub marshal_journeys :
      List String → List (String × Option (Journey F)) → List (String × Option (RawJourney F))
  unfolding marshal_journey get
  marshal_journeys names journeys =
      map (λ name. (name, some (marshal_journey (get name journeys)))) names

  unfoldable pub marshal_fault : FaultSpec F → RawFault F
  unfolding marshal_fault_target fault_kind_string marshal_severity marshal_fault_schedule
  marshal_fault f = record {
    target = marshal_fault_target h f.target;
    kind = fault_kind_string f.kind;
    severity = marshal_severity fl f.severity;
    schedule = marshal_fault_schedule fl f.schedule;
  }

  abbrev pub with_services :
      Schema F → Option (List (String × Option (RawService F))) → Option (RawSchema F)
  unfolding marshal_journeys marshal_fault
  with_services s none = none
  with_services s (some services) = some record {
    namespace =
        if str_eq s.namespace "" || str_eq s.namespace default_namespace then "" else s.namespace;
    services = services;
    journeys = marshal_journeys (sorted_keys sort s.journeys) s.journeys;
    faults = map (λ f. some (marshal_fault f)) s.faults;
  }

  unfoldable pub marshal_yaml : Schema F → Option (RawSchema F)
  unfolding marshal_services effective_schema_namespace marshal_journeys marshal_fault
  marshal_yaml s = with_services s (
      marshal_services (effective_schema_namespace (some s)) (sorted_keys sort s.services)
        s.services)
