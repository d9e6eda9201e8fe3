-- ===== src/Topology/Parse/Schema.antt =====
-- buildSchema of topology/parse.go, and the loop of resolveReferences over the calls.
use xk6_otel_gen.Prelude.{
  ℕ, suc, String, Option, some, none, List, [], ◌∷◌, ◌++◌, str_eq, if◌then◌else◌,
}
use xk6_otel_gen.Prelude.Int.{pos}
use xk6_otel_gen.Prelude.Text.{string_default}
use xk6_otel_gen.Topology.Float.{Float64}
use xk6_otel_gen.Topology.Types.{Schema, Service, Operation, CallNodes, ServiceRef, OperationRef}
use xk6_otel_gen.Topology.Errors.{FieldPath, key, ◌/ₖ◌, ◌/ᵢ◌}
use xk6_otel_gen.Topology.Graph.{get}
use xk6_otel_gen.Topology.Raw.{
  RawSchema, RawService, RawOperation, RawJourney, RawCallNodes, RawSteps,
}
use xk6_otel_gen.Topology.Tokens.{parse_service_kind}
use xk6_otel_gen.Topology.Parse.{
  or_default, resolve_log_events, resolve_metrics, resolve_state_updates, resolve_profile,
  resolve_observable_metrics,
}
use xk6_otel_gen.Topology.Parse.Store.{
  Store, new_service, new_operation, put_service, put_operation, empty_store,
}
use xk6_otel_gen.Topology.Parse.Lookup.{ParseErrors}
use xk6_otel_gen.Topology.Parse.Calls.{Collected, resolve_calls}

-- DefaultNamespace
abbrev pub default_namespace : String
default_namespace = "xk6-otel-gen"

-- m[k] = v
unfoldable pub assign_key {ℓ} : {V : Type ℓ} → String → V → List (String × V) → List (String × V)
assign_key k v [] = (k, v) ∷ []
assign_key k v ((j, w) ∷ m) =
    let rest = assign_key k v m in if str_eq j k then (j, v) ∷ m else (j, w) ∷ rest

abbrev OperationMap : Type 0
OperationMap = List (String × Option OperationRef)

abbrev ServiceMap : Type 0
ServiceMap = List (String × Option ServiceRef)

abbrev pub and_errors {ℓ} : {A : Type ℓ} → ParseErrors → ParseErrors × A → ParseErrors × A
and_errors before (errs, a) = (before ++ errs, a)

module _ (fl : Float64) where
  open fl use {F, one_f}

  abbrev pub no_raw_service : RawService F
  no_raw_service = record {
    namespace = "";
    kind = "";
    replicas = none;
    language = "";
    framework = "";
    version = "";
    metrics = [];
    operations = [];
  }

  abbrev pub no_raw_operation : RawOperation F
  no_raw_operation = record {
    name = "";
    calls = RawCallNodes.end;
    log_events = [];
    metrics = [];
    state_updates = [];
    profile = none;
  }

  abbrev pub no_raw_journey : RawJourney F
  no_raw_journey = record { steps = RawSteps.end; weight = none }

  -- The operation that buildSchema makes, whose calls come later.
  unfoldable pub built_operation : ServiceRef → RawOperation F → Operation F
  unfolding resolve_log_events resolve_metrics resolve_state_updates resolve_profile
  built_operation svc ro = record {
    name = ro.name;
    service = some svc;
    calls = CallNodes.end;
    log_events = resolve_log_events ro.log_events;
    metrics = resolve_metrics fl ro.metrics;
    state_updates = resolve_state_updates fl ro.state_updates;
    profile = resolve_profile fl ro.profile;
  }

  unfoldable pub build_operations :
      ServiceRef → List (Option (RawOperation F)) → OperationMap → Store F → OperationMap × Store F
  unfolding built_operation new_operation assign_key
  build_operations svc [] m st = (m, st)
  build_operations svc (raw ∷ raws) m st =
      let ro = or_default raw no_raw_operation in
      build_operations svc raws (assign_key ro.name (some st.operations) m)
        (new_operation (built_operation svc ro) st)

  unfoldable pub built_service : String → String → RawService F → OperationMap → Service F
  unfolding resolve_observable_metrics
  built_service namespace name rs operations = record {
    name = name;
    namespace = string_default rs.namespace namespace;
    kind = parse_service_kind rs.kind;
    replicas = or_default rs.replicas (pos 1);
    language = rs.language;
    framework = rs.framework;
    version = rs.version;
    operations = operations;
    metrics = resolve_observable_metrics fl rs.metrics;
  }

  -- One round of the loop over the services, from the schema's namespace.
  unfoldable pub build_service : String → String → RawService F → Store F → Store F
  unfolding built_service build_operations new_service
  build_service namespace name rs st =
      let svc = st.services in
      let (operations, st') =
        build_operations svc rs.operations []
          (new_service (built_service namespace name rs []) st) in
      put_service svc (built_service namespace name rs operations) st'

  unfoldable pub build_services :
      String → List (String × Option (RawService F)) → ServiceMap → Store F → ServiceMap × Store F
  unfolding build_service assign_key
  build_services namespace [] m st = (m, st)
  build_services namespace ((name, raw) ∷ raws) m st =
      build_services namespace raws (assign_key name (some st.services) m)
        (build_service namespace name (or_default raw no_raw_service) st)

  unfoldable pub build_schema : RawSchema F → Schema F × Store F
  unfolding build_services
  build_schema raw =
      let namespace = string_default raw.namespace default_namespace in
      let (services, st) = build_services namespace raw.services [] (empty_store fl) in
      (record { namespace = namespace; services = services; journeys = []; faults = [] }, st)

  -- op.Calls = …
  abbrev with_calls : OperationRef → Collected F CallNodes → ParseErrors × Store F
  with_calls op (errs, (calls, st)) =
      (errs, put_operation op (record (st.heap.operation op) { calls = calls }) st)

  module _ (s : Schema F) where
    unfoldable pub resolve_operation :
        Option ServiceRef → RawOperation F → FieldPath → Store F → ParseErrors × Store F
    unfolding get resolve_calls
    resolve_operation none ro path st = ([], st)
    resolve_operation (some svc) ro path st = elim (get ro.name (st.heap.service svc).operations) [
      | none ↦ ([], st)
      | some op ↦ with_calls op (resolve_calls fl s op ro.calls (path /ₖ "calls") 0 st)
    ]

    unfoldable pub resolve_operations :
        Option ServiceRef
        → List (Option (RawOperation F))
        → FieldPath
        → ℕ
        → Store F
        → ParseErrors × Store F
    unfolding resolve_operation
    resolve_operations svc [] path i st = ([], st)
    resolve_operations svc (none ∷ raws) path i st = resolve_operations svc raws path (suc i) st
    resolve_operations svc (some ro ∷ raws) path i st =
        let (errs, st') = resolve_operation svc ro (path /ᵢ i) st in
        and_errors errs (resolve_operations svc raws path (suc i) st')

    unfoldable pub resolve_services :
        List (String × Option (RawService F)) → Store F → ParseErrors × Store F
    unfolding resolve_operations get
    resolve_services [] st = ([], st)
    resolve_services ((name, none) ∷ raws) st = resolve_services raws st
    resolve_services ((name, some rs) ∷ raws) st =
        let (errs, st') =
          resolve_operations (get name s.services) rs.operations
            (key "services" ∷ key name ∷ key "operations" ∷ []) 0 st in
        and_errors errs (resolve_services raws st')
