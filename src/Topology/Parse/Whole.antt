-- ===== src/Topology/Parse/Whole.antt =====
-- resolveReferences and Parse of topology/parse.go. What the YAML decoder returns is an argument.
use xk6_otel_gen.Prelude.{ℕ, suc, String, Option, some, none, List, [], ◌∷◌, ◌++◌}
use xk6_otel_gen.Topology.Float.{Float64}
use xk6_otel_gen.Topology.Types.{Heap, Schema, Journey, Steps, FaultSpec, FaultTarget}
use xk6_otel_gen.Topology.Errors.{ValidationError, key, ◌/ₖ◌, ◌/ᵢ◌}
use xk6_otel_gen.Topology.Raw.{RawSchema, RawJourney, RawFault}
use xk6_otel_gen.Topology.Tokens.{parse_fault_kind}
use xk6_otel_gen.Topology.Validate.Whole.{validate}
use xk6_otel_gen.Topology.Parse.{or_default, resolve_severity, resolve_fault_schedule}
use xk6_otel_gen.Topology.Parse.Store.{Store}
use xk6_otel_gen.Topology.Parse.Lookup.{ParseErrors, Parsed}
use xk6_otel_gen.Topology.Parse.Steps.{resolve_steps}
use xk6_otel_gen.Topology.Parse.Targets.{resolve_fault_target}
use xk6_otel_gen.Topology.Parse.Schema.{
  assign_key, no_raw_journey, build_schema, resolve_services, and_errors,
}

module _ (fl : Float64) where
  open fl use {F, one_f}

  abbrev JourneyMap : Type 0
  JourneyMap = List (String × Option (Journey F))

  abbrev journey_of : String → RawJourney F → ParseErrors × Steps → ParseErrors × Journey F
  journey_of name rj (errs, steps) =
      (errs, record { name = name; steps = steps; weight = or_default rj.weight one_f })

  module _ (h : Heap F) (s : Schema F) where
    -- One round of the loop over the journeys.
    unfoldable pub resolve_journey : String → RawJourney F → ParseErrors × Journey F
    unfolding resolve_steps
    resolve_journey name rj =
        journey_of name rj
          (resolve_steps h s rj.steps (key "journeys" ∷ key name ∷ key "steps" ∷ []) 0)

    unfoldable pub resolve_journeys :
        List (String × Option (RawJourney F)) → JourneyMap → ParseErrors × JourneyMap
    unfolding resolve_journey assign_key
    resolve_journeys [] m = ([], m)
    resolve_journeys ((name, raw) ∷ raws) m =
        let (errs, journey) = resolve_journey name (or_default raw (no_raw_journey fl)) in
        and_errors errs (resolve_journeys raws (assign_key name (some journey) m))

    unfoldable pub fault_of : RawFault F → FaultTarget → FaultSpec F
    fault_of rf target = record {
      target = target;
      kind = parse_fault_kind rf.kind;
      severity = resolve_severity fl rf.severity;
      schedule = resolve_fault_schedule fl rf.schedule;
    }

    abbrev pub with_fault :
        RawFault F
        → Parsed FaultTarget
        → ParseErrors × List (FaultSpec F)
        → ParseErrors × List (FaultSpec F)
    with_fault rf (Parsed.ok target) (errs, faults) = (errs, fault_of rf target ∷ faults)
    with_fault rf (Parsed.failed es) (errs, faults) = (es ++ errs, faults)

    unfoldable pub resolve_faults :
        ℕ → List (Option (RawFault F)) → ParseErrors × List (FaultSpec F)
    unfolding resolve_fault_target
    resolve_faults i [] = ([], [])
    resolve_faults i (none ∷ raws) =
        and_errors ((key "faults" ∷ [] /ᵢ i) ∷ []) (resolve_faults (suc i) raws)
    resolve_faults i (some rf ∷ raws) =
        with_fault rf (resolve_fault_target h s rf.target (key "faults" ∷ [] /ᵢ i /ₖ "target"))
          (resolve_faults (suc i) raws)

  -- The errors, and the schema and the objects as they are then.
  unfoldable pub resolve_references :
      Schema F → RawSchema F → Store F → ParseErrors × (Schema F × Store F)
  unfolding resolve_services resolve_journeys resolve_faults
  resolve_references s raw st =
      let (errs, st') = resolve_services fl s raw.services st in
      let (journey_errs, journeys) = resolve_journeys st'.heap s raw.journeys [] in
      let (fault_errs, faults) = resolve_faults st'.heap s 0 raw.faults in
      (
        errs ++ (journey_errs ++ fault_errs),
        (record s { journeys = journeys; faults = faults }, st'),
      )

  pub data ParseResult : Type 0 where
    parsed : Schema F → Heap F → ParseResult
    not_parsed : ParseErrors → ParseResult
    not_valid : List ValidationError → ParseResult

  abbrev pub checked : Option (List ValidationError) → Schema F → Heap F → Option ParseResult
  checked none s h = none
  checked (some []) s h = some (parsed s h)
  checked (some (e ∷ es)) s h = some (not_valid (e ∷ es))

  abbrev pub when_resolved : ℕ → ParseErrors × (Schema F × Store F) → Option ParseResult
  when_resolved fuel ([], (s, st)) = checked (validate fl fuel st.heap (some s)) s st.heap
  when_resolved fuel (e ∷ es, (s, st)) = some (not_parsed (e ∷ es))

  -- `none` where the validation runs out of fuel.
  unfoldable pub parse : ℕ → Parsed (RawSchema F) → Option ParseResult
  unfolding build_schema resolve_references validate
  parse fuel (Parsed.failed es) = some (not_parsed es)
  parse fuel (Parsed.ok raw) =
      let (s, st) = build_schema fl raw in when_resolved fuel (resolve_references s raw st)
