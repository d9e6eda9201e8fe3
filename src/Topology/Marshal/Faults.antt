-- ===== src/Topology/Marshal/Faults.antt =====
-- The faults that topology/marshal.go writes, as topology/parse.go reads them and topology/equal.go
-- compares them.
use text.Mathlib.TextPositions.{eq_refl}
use xk6_otel_gen.Prelude.{
  ℕ, suc, String, ◌≡◌, refl, true, false, not, none, some, List, [], ◌∷◌, All, map, append-eq-nil,
}
use xk6_otel_gen.Topology.Enums.{TargetKind, fault_kind_code, target_kind_code}
use xk6_otel_gen.Topology.Float.{Float64}
use xk6_otel_gen.Topology.Types.{Heap, Schema, FaultSpec, FaultTarget}
use xk6_otel_gen.Topology.Errors.{key, ◌/ₖ◌, ◌/ᵢ◌}
use xk6_otel_gen.Topology.Graph.{collect_from}
use xk6_otel_gen.Topology.Validate.Domain.{report, valid_fault_kind, valid_probability}
use xk6_otel_gen.Topology.Validate.Ranges.{fault_ranges}
use xk6_otel_gen.Topology.Parse.Lookup.{ParseErrors}
use xk6_otel_gen.Topology.Raw.{RawFault}
use xk6_otel_gen.Topology.Parse.Whole.{resolve_faults, fault_of}
use xk6_otel_gen.Topology.Marshal.Tree.{identify_op, name_of_service}
use xk6_otel_gen.Topology.Marshal.Schema.{marshal_fault}
use xk6_otel_gen.Topology.Marshal.Tokens.{parse_fault_kind-fault_kind_string}
use xk6_otel_gen.Topology.Marshal.Targets.{HasText, resolve_fault_target-marshal_fault_target}
use xk6_otel_gen.Topology.Marshal.Leaves.{EqLaws, report-quiet, eq_ℤ_self}
use xk6_otel_gen.Topology.Equal.{equal_each, equal_each-cons}
use xk6_otel_gen.Topology.Equal.Tree.{
  edge_identity, equal_target_of, equal_fault_target, equal_fault_spec, equal_faults,
}
use xk6_otel_gen.Topology.Marshal.Severity.{
  restored_severity, restored_schedule, schedule_self, valid_number,
}

module _ (fl : Float64) (h : Heap fl.F) where
  open fl use {F, is_nan}

  module _ (s : Schema F) where
    -- A fault whose target can be written by name, and whose severity has numbers.
    pub record IsWritable (fault : FaultSpec F) : Type 0 where
      pub has_text : HasText h s fault.target
      pub multiplier : is_nan fault.severity.multiplier ≡ false
      pub value : is_nan fault.severity.value ≡ false

  target_self : (t : FaultTarget) → equal_fault_target fl h h t t ≡ true
  unfolding equal_fault_target equal_target_of
  target_self t = rw (eq_ℤ_self (target_kind_code t.kind)) (same_of t.kind)
    where
      same_of : (k : TargetKind) → equal_target_of fl h h k t t ≡ true
      same_of TargetKind.node = eq_refl _
      same_of TargetKind.operation = eq_refl _
      same_of TargetKind.edge = eq_refl _
      same_of (TargetKind.other k) =
          rw
            (
              eq_refl (name_of_service h t.service),
              eq_refl (identify_op h t.operation),
              eq_refl (edge_identity h t.edge),
            )
            refl

module _ (fl : Float64) (sort : List String → List String) (depth : ℕ) (h : Heap fl.F)
    (s : Schema fl.F) where
  open fl use {F}

  -- What reading gives for the faults as they are written, counted from an index.
  abbrev pub read_back : ℕ → List (FaultSpec F) → ParseErrors × List (FaultSpec F)
  read_back i faults =
      resolve_faults fl h s i (map (λ f. some (marshal_fault fl sort h depth f)) faults)

  abbrev IsReadBack : ℕ → List (FaultSpec F) → Type 0
  IsReadBack i faults =
      ((read_back i faults).0 ≡ []) × (equal_faults fl h h (read_back i faults).1 faults ≡ true)

module _ (fl : Float64) (laws : EqLaws fl) (sort : List String → List String) (depth : ℕ)
    (h : Heap fl.F) (s : Schema fl.F) where
  open fl use {F}

  restored_fault :
      (i : ℕ) (raw : RawFault F) (fault : FaultSpec F)
      → IsWritable fl h s fault
      → fault_ranges fl h i fault ≡ []
      → raw ≡ marshal_fault fl sort h depth fault
      → equal_fault_spec fl h h (fault_of fl h s raw fault.target) fault ≡ true
  unfolding fault_ranges equal_fault_spec marshal_fault fault_of
  restored_fault i raw fault writable quiet written =
      let path = key "faults" ∷ [] /ᵢ i in
      let (kind, quiet) =
        append-eq-nil (report (not (valid_fault_kind fault.kind)) (path /ₖ "kind") "D-ENUM") _
          quiet in
      let (probability, quiet) =
        append-eq-nil
          (report (not (valid_probability fl fault.severity.probability))
            (path /ₖ "severity" /ₖ "probability") "D-8")
          _ quiet in
      let (_, schedule) = append-eq-nil _ _ quiet in
      rw
        (
          written,
          parse_fault_kind-fault_kind_string fault.kind
              (report-quiet (valid_fault_kind fault.kind) (path /ₖ "kind") "D-ENUM" kind),
          eq_ℤ_self (fault_kind_code fault.kind),
          target_self fl h fault.target,
          restored_severity fl laws fault.severity
              (valid_number fl laws fault.severity.probability (
                report-quiet (valid_probability fl fault.severity.probability)
                  (path /ₖ "severity" /ₖ "probability") "D-8" probability))
              writable.multiplier writable.value,
          restored_schedule fl laws fault.schedule,
          schedule_self fl laws (path /ₖ "schedule") 0 none fault.schedule schedule,
        )
        refl

  same_faults :
      (fault : FaultSpec F) (faults : List (FaultSpec F)) (i : ℕ)
      → IsWritable fl h s fault
      → fault_ranges fl h i fault ≡ []
      → IsReadBack fl sort depth h s (suc i) faults
      → IsReadBack fl sort depth h s i (fault ∷ faults)
  unfolding resolve_faults equal_faults marshal_fault
  same_faults fault faults i writable quiet (no_errors, same) =
      rw
        (resolve_fault_target-marshal_fault_target h s fault.target writable.has_text
          (key "faults" ∷ [] /ᵢ i /ₖ "target"))
        (
          no_errors,
          equal_each-cons (equal_fault_spec fl h h)
              (fault_of fl h s (marshal_fault fl sort h depth fault) fault.target) fault
              (read_back fl sort depth h s (suc i) faults).1 faults
              (restored_fault i (marshal_fault fl sort h depth fault) fault writable quiet refl)
              same,
        )

  -- Where comparison with == of numbers that are not NaN is reflexive and symmetric: faults in the
  -- declared ranges, whose targets can be written by name and whose multipliers and values are
  -- numbers, are read back from what is written for them without an error, and the faults that are
  -- read are equal to the ones that were written, as Equal compares them.
  pub resolve_faults-marshal_fault :
      (i : ℕ) (faults : List (FaultSpec F))
      → All (IsWritable fl h s) faults
      → collect_from i (fault_ranges fl h) faults ≡ []
      → ((read_back fl sort depth h s i faults).0 ≡ [])
        × (equal_faults fl h h (read_back fl sort depth h s i faults).1 faults ≡ true)
  unfolding collect_from
  resolve_faults-marshal_fault i [] writable quiet =
      (unfold resolve_faults in refl, unfold resolve_faults equal_faults equal_each in refl)
  resolve_faults-marshal_fault i (fault ∷ faults) (here, rest) quiet =
      let (first, others) = append-eq-nil (fault_ranges fl h i fault) _ quiet in
      same_faults fault faults i here first
        (resolve_faults-marshal_fault (suc i) faults rest others)
