-- ===== src/Topology/Validate/Targets.antt =====
-- validateFaultTargets (R-STR-6) and validateRecoveryPolicyOwnership (R-STR-8) of
-- topology/validate.go. The descent into the fallbacks of fallbacks follows pointers and takes fuel.
use xk6_otel_gen.Prelude.{
  ℕ, zero, suc, ◌+◌, Option, none, some, List, [], ◌∷◌, ◌++◌, ◌==◌, if◌then◌else◌,
}
use xk6_otel_gen.Topology.Enums.{TargetKind}
use xk6_otel_gen.Topology.Types.{Heap, Schema, FaultSpec, FaultTarget, OperationRef, EdgeRef}
use xk6_otel_gen.Topology.Errors.{FieldPath, ValidationError, one_error, key, ◌/ₖ◌, ◌/ᵢ◌}
use xk6_otel_gen.Topology.Graph.{
  collect_from, contains, eq_ref, is_some, points_to, all_schema_operations, outgoing_edges,
}
use xk6_otel_gen.Topology.Validate.Ranges.{Located, located_edges}

abbrev set_count : FaultTarget → ℕ
set_count t =
    (if is_some t.service then 1 else 0)
    + (if is_some t.operation then 1 else 0)
    + (if is_some t.edge then 1 else 0)

-- The errors of two checks; `none` when the fuel of one ran out.
abbrev pub join :
    Option (List ValidationError) → Option (List ValidationError) → Option (List ValidationError)
join none rest = none
join (some errs) none = none
join (some errs) (some rest) = some (errs ++ rest)

module _ {F : Type 0} (h : Heap F) where
  -- The target that the kind of the fault asks for.
  unfoldable pub target_of_kind :
      Schema F → FieldPath → FaultTarget → TargetKind → List ValidationError
  target_of_kind s path t TargetKind.node = elim t.service [
    | none ↦ one_error path "R-STR-6"
    | some svc ↦ if points_to svc s.services then [] else one_error path "R-STR-6"
  ]
  target_of_kind s path t TargetKind.operation = elim t.operation [
    | none ↦ one_error path "R-STR-6"
    | some op ↦ if contains (all_schema_operations h s) op then [] else one_error path "R-STR-6"
  ]
  target_of_kind s path t TargetKind.edge = elim t.edge [
    | none ↦ one_error path "R-STR-6"
    | some e ↦ if contains (outgoing_edges h s) e then [] else one_error path "R-STR-6"
  ]
  target_of_kind s path t (TargetKind.other n) = one_error (path /ₖ "kind") "R-STR-6"

  unfoldable pub validate_fault_target : Schema F → ℕ → FaultSpec F → List ValidationError
  unfolding target_of_kind
  validate_fault_target s i fault =
      let path = key "faults" ∷ [] /ᵢ i /ₖ "target" in
      if set_count fault.target == 1
      then target_of_kind s path fault.target fault.target.kind
      else one_error path "R-STR-6"

  unfoldable pub validate_fault_targets : Option (Schema F) → List ValidationError
  validate_fault_targets none = []
  validate_fault_targets (some s) = collect_from 0 (validate_fault_target s) s.faults

  -- The loop over the fallbacks of an edge, given the check of a fallback's own fallbacks.
  unfoldable pub check_fallbacks :
      (EdgeRef → FieldPath → Option (List ValidationError))
      → Option OperationRef
      → FieldPath
      → ℕ
      → List (Option EdgeRef)
      → Option (List ValidationError)
  check_fallbacks descend source path i [] = some []
  check_fallbacks descend source path i (none ∷ rest) =
      join (some (one_error (path /ₖ "on_failure" /ₖ "fallback" /ᵢ i) "R-STR-8"))
        (check_fallbacks descend source path (suc i) rest)
  check_fallbacks descend source path i (some e ∷ rest) =
      let here = path /ₖ "on_failure" /ₖ "fallback" /ᵢ i in
      join
        (join (some (if eq_ref (h.edge e).source source then [] else one_error here "R-STR-8"))
          (descend e here))
        (check_fallbacks descend source path (suc i) rest)

  unfoldable pub ownership_of_edge : ℕ → EdgeRef → FieldPath → Option (List ValidationError)
  ownership_of_edge zero e path = none
  ownership_of_edge (suc fuel) e path = elim (h.edge e).on_failure [
    | none ↦ some []
    | some policy ↦
        check_fallbacks (ownership_of_edge fuel) (h.edge e).source path 0 policy.fallback
  ]

  unfoldable pub ownership_of_edges : ℕ → List Located → Option (List ValidationError)
  ownership_of_edges fuel [] = some []
  ownership_of_edges fuel ((none, path) ∷ rest) = ownership_of_edges fuel rest
  ownership_of_edges fuel ((some e, path) ∷ rest) =
      join (ownership_of_edge fuel e path) (ownership_of_edges fuel rest)

  unfoldable pub validate_recovery_policy_ownership :
      ℕ → Option (Schema F) → Option (List ValidationError)
  validate_recovery_policy_ownership fuel none = some []
  validate_recovery_policy_ownership fuel (some s) = ownership_of_edges fuel (located_edges h s)
