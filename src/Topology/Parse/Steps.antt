-- ===== src/Topology/Parse/Steps.antt =====
-- resolveStep of topology/parse.go.
use xk6_otel_gen.Prelude.{
  ℕ, suc, String, Bool, true, false, not, ◌||◌, some, none, ◌++◌, [], str_eq, if◌then◌else◌,
}
use xk6_otel_gen.Topology.Types.{Heap, Schema, Step, Steps, OperationRef}
use xk6_otel_gen.Topology.Errors.{FieldPath, ◌/ₖ◌, ◌/ᵢ◌}
use xk6_otel_gen.Topology.Raw.{RawStep, RawSteps}
use xk6_otel_gen.Topology.Parse.Lookup.{
  ParseErrors, Parsed, parse_error, unless_failed, lookup_operation_at_path,
}

-- len(steps) > 0
abbrev pub has_raw_steps : RawSteps → Bool
has_raw_steps RawSteps.end = false
has_raw_steps (RawSteps.cons s ss) = true

-- rs.Service != "" || rs.Operation != ""
abbrev pub has_op : String → String → Bool
has_op service operation = not (str_eq service "") || not (str_eq operation "")

abbrev pub with_step : Parsed Step → ParseErrors × Steps → ParseErrors × Steps
with_step (Parsed.ok s) (errs, ss) = (errs, Steps.cons s ss)
with_step (Parsed.failed es) (errs, ss) = (es ++ errs, ss)

abbrev pub parallel_step : ParseErrors × Steps → Parsed Step
parallel_step (errs, ss) = unless_failed errs (Step.step none ss)

abbrev pub operation_step : Parsed OperationRef → Parsed Step
operation_step (Parsed.ok op) = Parsed.ok (Step.step (some op) Steps.end)
operation_step (Parsed.failed es) = Parsed.failed es

module _ {F : Type 0} (h : Heap F) (s : Schema F) where
  -- A step of one operation: both names are required.
  unfoldable pub resolve_single_step : String → String → FieldPath → Parsed Step
  resolve_single_step service operation path =
      if str_eq service ""
      then parse_error (path /ₖ "service")
      else if str_eq operation ""
      then parse_error (path /ₖ "operation")
      else operation_step (lookup_operation_at_path h s service operation path)

  unfoldable mutual
    pub resolve_step : RawStep → FieldPath → Parsed Step
    resolve_step RawStep.null path = parse_error path
    resolve_step (RawStep.step service operation parallel) path =
        let children = resolve_steps parallel (path /ₖ "parallel") 0 in
        if has_op service operation
        then if has_raw_steps parallel
          then parse_error path
          else resolve_single_step service operation path
        else if has_raw_steps parallel
        then parallel_step children
        else parse_error path

    pub resolve_steps : RawSteps → FieldPath → ℕ → ParseErrors × Steps
    resolve_steps RawSteps.end path i = ([], Steps.end)
    resolve_steps (RawSteps.cons rs rss) path i =
        with_step (resolve_step rs (path /ᵢ i)) (resolve_steps rss path (suc i))
