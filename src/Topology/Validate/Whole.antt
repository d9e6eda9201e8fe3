-- ===== src/Topology/Validate/Whole.antt =====
-- Validate of topology/validate.go: all rules together. An empty list of errors is Go's nil.
use xk6_otel_gen.Prelude.{
  ℕ, String, true, Option, none, some, List, [], ◌∷◌, ◌≡◌, refl, subst, append-eq-nil, arith,
  str_eq, not, is_empty, Bool-cases, inl, inr,
}
use xk6_otel_gen.Topology.Float.{Float64}
use xk6_otel_gen.Topology.Types.{Heap, Schema, Journey}
use xk6_otel_gen.Topology.Errors.{FieldPath, ValidationError, key, ◌/ₖ◌}
use xk6_otel_gen.Topology.Graph.{collect, lookup, all_schema_operations}
use xk6_otel_gen.Topology.Dag.{validate_dag}
use xk6_otel_gen.Topology.Validate.Structure.{
  validate_map_key_consistency, validate_back_pointers, validate_no_orphan_references,
  validate_journey_reachability, check_journey_steps, steps_reachable, has_steps,
  validate_call_node_variants,
}
use xk6_otel_gen.Topology.Validate.Targets.{
  join, validate_fault_targets, validate_recovery_policy_ownership,
}
use xk6_otel_gen.Topology.Validate.Ranges.{
  validate_domain_ranges, journey_ranges, service_ranges, edge_ranges, located_edges,
}
use xk6_otel_gen.Topology.Validate.Domain.{report}

join-eq-nil :
    (a b : Option (List ValidationError)) → join a b ≡ some [] → (a ≡ some []) × (b ≡ some [])
join-eq-nil (some xs) (some ys) quiet = ground (arith, append-eq-nil xs ys)
join-eq-nil (some xs) none quiet = cc
join-eq-nil none b quiet = cc

-- A loop over the entries of a map that reports nothing reports nothing for an entry.
of_some : {xs : List ValidationError} → some xs ≡ some [] → xs ≡ []
of_some h = cc

pub collect-lookup :
    {V : Type 0} (f : String × V → List ValidationError) (k : String) (v : V)
    (m : List (String × V))
    → collect f m ≡ []
    → lookup k m ≡ some v
    → (j : String) × (f (j, v) ≡ [])
unfolding collect lookup
collect-lookup f k v [] quiet found = absurd (cc)
collect-lookup f k v ((j, w) ∷ m) quiet found =
    let (here, later) = append-eq-nil (f (j, w)) (collect f m) quiet in
    elim (Bool-cases (str_eq j k)) [
      | inl same_key ↦ let e : w ≡ v = ground arith in (j, subst (λ x. f (j, x) ≡ []) e here)
      | inr other ↦ collect-lookup f k v m later (ground arith)
    ]

module _ (fl : Float64) where
  open fl use {F, le_f, zero_f}

  unfoldable pub validate : ℕ → Heap F → Option (Schema F) → Option (List ValidationError)
  validate fuel h s = join (some (validate_map_key_consistency h s)) (
      join (some (validate_back_pointers h s)) (
        join (some (validate_no_orphan_references h s)) (
          join (validate_dag h s) (
            join (some (validate_journey_reachability h s)) (
              join (some (validate_fault_targets h s)) (
                join (some (validate_call_node_variants h s)) (
                  join (validate_recovery_policy_ownership h fuel s)
                    (some (validate_domain_ranges fl h s)))))))))

  module _ (fuel : ℕ) (h : Heap F) (s : Schema F) (quiet : validate fuel h (some s) ≡ some []) where
    pub validate_parts :
        (validate_back_pointers h (some s) ≡ [])
        × (validate_no_orphan_references h (some s) ≡ [])
        × (validate_dag h (some s) ≡ some [])
        × (validate_journey_reachability h (some s) ≡ [])
        × (validate_call_node_variants h (some s) ≡ [])
        × (validate_domain_ranges fl h (some s) ≡ [])
    unfolding validate
    validate_parts =
        let (_, q) = join-eq-nil (some (validate_map_key_consistency h (some s))) _ quiet in
        let (back, q) = join-eq-nil _ _ q in
        let (orphans, q) = join-eq-nil _ _ q in
        let (dag, q) = join-eq-nil _ _ q in
        let (reach, q) = join-eq-nil _ _ q in
        let (_, q) = join-eq-nil (some (validate_fault_targets h (some s))) _ q in
        let (variants, q) = join-eq-nil _ _ q in
        let (_, ranges) = join-eq-nil (validate_recovery_policy_ownership h fuel (some s)) _ q in
        (of_some back, of_some orphans, dag, of_some reach, of_some variants, of_some ranges)

    journeys_quiet : collect (journey_ranges fl h) s.journeys ≡ []
    unfolding validate_domain_ranges
    journeys_quiet =
        let r =
          append-eq-nil (report (is_empty s.services) (key "services" ∷ []) "D-13") _
            validate_parts.5 in
        let r = append-eq-nil (report (is_empty s.journeys) (key "journeys" ∷ []) "D-14") _ r.1 in
        let r = append-eq-nil (collect (service_ranges fl h) s.services) _ r.1 in
        let r = append-eq-nil (collect (edge_ranges fl h) (located_edges h s)) _ r.1 in
        (append-eq-nil (collect (journey_ranges fl h) s.journeys) _ r.1).0

    stepped :
        (name : String) (j : Journey F)
        → journey_ranges fl h (name, some j) ≡ []
        → has_steps j.steps ≡ true
    unfolding journey_ranges
    stepped name j quiet =
        let path = key "journeys" ∷ key name ∷ [] in
        let r =
          append-eq-nil (report (not (str_eq j.name name)) (path /ₖ "name") "D-JOURNEY") _ quiet in
        let r = append-eq-nil (report (le_f j.weight zero_f) (path /ₖ "weight") "D-10") _ r.1 in
        ground (arith, r.1)

    -- Every journey of the schema has steps, and all that they name is in the schema.
    pub journey_quiet :
        (name : String) (found : Option (Journey F))
        → lookup name s.journeys ≡ some found
        → (j : Journey F) × (path : FieldPath) × (found ≡ some j)
          × (has_steps j.steps ≡ true)
          × (steps_reachable h (all_schema_operations h s) path 0 j.steps ≡ [])
    unfolding validate_journey_reachability validate_domain_ranges
    journey_quiet name none there =
        let (k, e) =
          collect-lookup (check_journey_steps h (all_schema_operations h s)) name none s.journeys
            validate_parts.3 there in
        absurd (unfold check_journey_steps in cc e)
    journey_quiet name (some j) there =
        let (k, e) =
          collect-lookup (check_journey_steps h (all_schema_operations h s)) name (some j)
            s.journeys validate_parts.3 there in
        let (k', e') =
          collect-lookup (journey_ranges fl h) name (some j) s.journeys journeys_quiet there in
        (
          j,
          key "journeys" ∷ key k ∷ key "steps" ∷ [],
          refl,
          stepped k' j e',
          unfold check_journey_steps in e,
        )
