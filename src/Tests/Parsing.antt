-- ===== src/Tests/Parsing.antt =====
-- The theorems about the parser and the linter, applied to small topologies.
use xk6_otel_gen.Prelude.{Bool, ◌≡◌, refl, true, false, none, some, [], ◌∷◌, arith}
use xk6_otel_gen.Prelude.Int.{ℤ, ◌+ℤ◌, ◌-ℤ◌}
use xk6_otel_gen.Topology.Graph.{
  collect, collect_from, lookup, get, contains, points_to, fallback_edges, outgoing_targets,
  service_operations, all_schema_operations, outgoing_edges, edges_in_calls, edges_in_call,
}
use xk6_otel_gen.Topology.Dag.{
  degree, assign, zero_degrees, increment, ready, relax, relax_all, unvisited, count_edges,
  in_degrees, drain, validate_dag,
}
use xk6_otel_gen.Topology.Validate.Structure.{
  has_calls, check_service_key, validate_map_key_consistency, check_back_pointers,
  check_service_back_pointers, validate_back_pointers, check_operation_calls, check_service_calls,
  for_each_calls, validate_edge_endpoints, validate_no_orphan_references,
  validate_call_node_variants, check_journey_steps, validate_journey_reachability, no_orphan_calls,
  no_orphan_call, call_variants, call_variant, steps_reachable, step_reachable, fallback_endpoints,
}
use xk6_otel_gen.Topology.Validate.Domain.{
  valid_service_kind, valid_protocol, valid_backoff, valid_fault_kind, valid_exhausted,
  valid_log_condition, valid_log_severity, valid_sync_metric_type, valid_observable_metric_type,
  valid_latency_distribution, valid_probability, valid_float_metric_value,
  validate_observable_metric_spec, validate_operation_domain, validate_fault_schedule,
  validate_edge_domain, check_name, validate_stack_sample, validate_metric_fault_link,
  validate_log_event, validate_metric, validate_state_update, validate_profile,
}
use xk6_otel_gen.Topology.Validate.Ranges.{
  located_in_operation, located_in_service, located_edges, operation_ranges, service_ranges,
  edge_ranges, journey_ranges, fault_ranges, validate_domain_ranges, located_calls, located_call,
  located_fallbacks,
}
use xk6_otel_gen.Topology.Validate.Targets.{
  validate_fault_target, validate_fault_targets, check_fallbacks, ownership_of_edge,
  ownership_of_edges, validate_recovery_policy_ownership, target_of_kind,
}
use xk6_otel_gen.Topology.Validate.Whole.{validate}
use xk6_otel_gen.Prelude.Text.{cut, reads_as, lower_is, trim_space}
use xk6_otel_gen.Topology.Types.{Heap, Schema}
use xk6_otel_gen.Topology.Errors.{FieldPath, key}
use xk6_otel_gen.Topology.Raw.{
  RawSchema, RawCallNode, RawCallNodes, RawRecoveryPolicy, RawStep, RawSteps,
}
use xk6_otel_gen.Topology.Tokens.{parse_service_kind}
use xk6_otel_gen.Topology.Parse.{
  resolve_each, resolve_log_events, resolve_metrics, resolve_state_updates, resolve_profile,
  resolve_observable_metrics,
}
use xk6_otel_gen.Topology.Parse.Store.{Store, new_operation, new_service}
use xk6_otel_gen.Topology.Parse.Lookup.{Parsed, lookup_operation_at_path}
use xk6_otel_gen.Topology.Parse.Calls.{resolve_calls, resolve_call_node, edge_node}
use xk6_otel_gen.Topology.Parse.Variants.{resolve_calls-variants}
use xk6_otel_gen.Topology.Parse.Steps.{resolve_step, resolve_steps, resolve_single_step}
use xk6_otel_gen.Topology.Parse.Schema.{
  assign_key, built_operation, build_operations, built_service, build_service, build_services,
  build_schema, resolve_operation, resolve_operations, resolve_services, no_raw_operation,
  no_raw_service,
}
use xk6_otel_gen.Topology.Parse.Whole.{
  parsed, parse, resolve_references, resolve_journey, resolve_journeys, resolve_faults,
}
use xk6_otel_gen.Topology.Lint.{
  LintSeverity, LintMessage, LintIssue, Decoded, decoded, type_error, linted, lint,
  sort_lint_issues, insert_issue, unknown_field_warnings, unknown_field_path, trim_quotes_left,
  trim_quotes_right,
}
use xk6_otel_gen.Topology.Lint.Accepted.{has_errors, raw_of, lint-parse}
use xk6_otel_gen.Journey.Plan.{Plan, build_plan, ok}
use xk6_otel_gen.Journey.Plan.Parsed.{build_plan-parse}
use xk6_otel_gen.Tests.{whole, shop, shop_heap}

-- A topology of one service, one operation and one journey.
abbrev raw_site : RawSchema ℤ
raw_site = record {
  namespace = "";
  services =
      (
        "web",
        some (record (no_raw_service whole) {
          kind = " Application";
          operations = some (record (no_raw_operation whole) { name = "home" }) ∷ [];
        }),
      )
      ∷ [];
  journeys =
      (
        "visit",
        some (record {
          steps = RawSteps.cons (RawStep.step "web" "home" RawSteps.end) RawSteps.end;
          weight = none;
        }),
      )
      ∷ [];
  faults = [];
}

-- What the parser makes of it.
abbrev site_result : Schema ℤ × Store ℤ
unfolding build_schema resolve_references
site_result =
    (resolve_references whole (build_schema whole raw_site).0 raw_site
      (build_schema whole raw_site).1).1

site_parsed : parse whole 8 (Parsed.ok raw_site) ≡ some (parsed site_result.0 site_result.1.heap)
unfolding collect collect_from lookup get contains points_to fallback_edges outgoing_targets
    service_operations all_schema_operations outgoing_edges edges_in_calls edges_in_call degree
    assign zero_degrees increment ready relax relax_all unvisited count_edges in_degrees drain
    validate_dag check_service_key validate_map_key_consistency check_back_pointers
    check_service_back_pointers validate_back_pointers check_operation_calls check_service_calls
    for_each_calls validate_edge_endpoints validate_no_orphan_references validate_call_node_variants
    check_journey_steps validate_journey_reachability no_orphan_calls no_orphan_call call_variants
    call_variant steps_reachable step_reachable valid_latency_distribution valid_probability
    validate_fault_schedule validate_edge_domain located_in_operation located_in_service
    located_edges operation_ranges service_ranges edge_ranges journey_ranges fault_ranges
    validate_domain_ranges located_calls located_call validate_fault_target validate_fault_targets
    check_fallbacks ownership_of_edge ownership_of_edges validate_recovery_policy_ownership validate
    ◌+ℤ◌ ◌-ℤ◌ valid_service_kind valid_protocol valid_backoff valid_fault_kind valid_exhausted
    valid_log_condition valid_log_severity valid_sync_metric_type valid_observable_metric_type
    valid_float_metric_value validate_observable_metric_spec validate_operation_domain check_name
    validate_stack_sample validate_metric_fault_link validate_log_event validate_metric
    validate_state_update validate_profile located_fallbacks target_of_kind fallback_endpoints parse
    build_schema resolve_references build_services build_service built_service build_operations
    built_operation assign_key new_operation new_service resolve_services resolve_operations
    resolve_operation resolve_calls resolve_call_node resolve_journeys resolve_journey resolve_steps
    resolve_step resolve_single_step lookup_operation_at_path resolve_faults resolve_each
    resolve_log_events resolve_metrics resolve_state_updates resolve_profile
    resolve_observable_metrics parse_service_kind reads_as lower_is trim_space
site_parsed = refl

build_plan-parse_example :
    (plan : Plan ℤ) × (build_plan site_result.1.heap 3 site_result.0 "visit" ≡ ok plan)
    × (plan.journey_name ≡ "visit")
unfolding all_schema_operations service_operations get collect lookup build_schema
    resolve_references build_services build_service built_service build_operations built_operation
    assign_key new_operation new_service resolve_services resolve_operations resolve_operation
    resolve_calls resolve_journeys resolve_journey resolve_steps resolve_step resolve_single_step
    lookup_operation_at_path resolve_faults
build_plan-parse_example =
    build_plan-parse whole 8 3 (Parsed.ok raw_site) site_result.1.heap site_result.0 "visit" _
      site_parsed (omega arith) refl

-- One call of an operation of the small topology.
abbrev raw_calls : RawCallNodes ℤ
raw_calls =
    RawCallNodes.cons
      (RawCallNode.call
        (record {
          target = some record { service = "store"; operation = "query" };
          protocol = "grpc";
          latency = none;
          error_rate = none;
          timeout = none;
          retries = none;
          retry_backoff = "";
          retry_base_delay = none;
        })
        RawCallNodes.end RawRecoveryPolicy.no_policy)
      RawCallNodes.end

abbrev shop_store : Store ℤ
shop_store = record { heap = shop_heap; services = 2; operations = 3; edges = 2 }

resolve_calls-variants_example :
    (call_variants shop_heap [] 0 (resolve_calls whole shop 0 raw_calls [] 0 shop_store).1.0 ≡ [])
    × (has_calls (resolve_calls whole shop 0 raw_calls [] 0 shop_store).1.0 ≡ true)
unfolding resolve_calls lookup_operation_at_path get lookup edge_node
resolve_calls-variants_example =
    resolve_calls-variants whole shop_heap shop 0 raw_calls [] 0 shop_store refl [] 0

-- The strict decoder meets a field that it does not know.
abbrev strict_site : Decoded ℤ
strict_site = type_error ("line 3: field owner not found in type" ∷ [])

abbrev site_issue : LintIssue
site_issue = record {
  path = key "<root>" ∷ key "owner" ∷ [];
  severity = LintSeverity.lint_warning;
  message = LintMessage.says "line 3: field owner not found in type";
}

abbrev first_less : FieldPath → FieldPath → Bool
first_less a b = false

abbrev no_less : LintMessage → LintMessage → Bool
no_less a b = false

site_linted :
    lint first_less no_less whole 8 strict_site (decoded raw_site) ≡ some (linted (site_issue ∷ []))
unfolding lint sort_lint_issues insert_issue has_errors unknown_field_warnings unknown_field_path
    cut trim_quotes_left trim_quotes_right raw_of collect collect_from lookup get contains points_to
    fallback_edges outgoing_targets service_operations all_schema_operations outgoing_edges
    edges_in_calls edges_in_call degree assign zero_degrees increment ready relax relax_all
    unvisited count_edges in_degrees drain validate_dag check_service_key
    validate_map_key_consistency check_back_pointers check_service_back_pointers
    validate_back_pointers check_operation_calls check_service_calls for_each_calls
    validate_edge_endpoints validate_no_orphan_references validate_call_node_variants
    check_journey_steps validate_journey_reachability no_orphan_calls no_orphan_call call_variants
    call_variant steps_reachable step_reachable valid_latency_distribution valid_probability
    validate_fault_schedule validate_edge_domain located_in_operation located_in_service
    located_edges operation_ranges service_ranges edge_ranges journey_ranges fault_ranges
    validate_domain_ranges located_calls located_call validate_fault_target validate_fault_targets
    check_fallbacks ownership_of_edge ownership_of_edges validate_recovery_policy_ownership validate
    ◌+ℤ◌ ◌-ℤ◌ valid_service_kind valid_protocol valid_backoff valid_fault_kind valid_exhausted
    valid_log_condition valid_log_severity valid_sync_metric_type valid_observable_metric_type
    valid_float_metric_value validate_observable_metric_spec validate_operation_domain check_name
    validate_stack_sample validate_metric_fault_link validate_log_event validate_metric
    validate_state_update validate_profile located_fallbacks target_of_kind fallback_endpoints parse
    build_schema resolve_references build_services build_service built_service build_operations
    built_operation assign_key new_operation new_service resolve_services resolve_operations
    resolve_operation resolve_calls resolve_call_node resolve_journeys resolve_journey resolve_steps
    resolve_step resolve_single_step lookup_operation_at_path resolve_faults resolve_each
    resolve_log_events resolve_metrics resolve_state_updates resolve_profile
    resolve_observable_metrics parse_service_kind reads_as lower_is trim_space
site_linted = refl

lint-parse_example :
    (s : Schema ℤ) × ((h : Heap ℤ) × (parse whole 8 (raw_of (decoded raw_site))
        ≡ some (parsed s h)))
unfolding has_errors
lint-parse_example =
    lint-parse first_less no_less whole 8 strict_site (decoded raw_site) (site_issue ∷ [])
      (λ raw e. absurd cc) site_linted refl
