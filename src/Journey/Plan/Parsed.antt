-- ===== src/Journey/Plan/Parsed.antt =====
-- topology/parse.go and journey/plan.go together: a topology that Parse returns has a plan for each of
-- its journeys.
use xk6_otel_gen.Prelude.{ℕ, ◌≤◌, ◌≡◌, String, Option, some, length}
use xk6_otel_gen.Topology.Float.{Float64}
use xk6_otel_gen.Topology.Types.{Heap, Schema, Journey}
use xk6_otel_gen.Topology.Graph.{all_schema_operations, lookup}
use xk6_otel_gen.Topology.Raw.{RawSchema}
use xk6_otel_gen.Topology.Parse.Lookup.{Parsed}
use xk6_otel_gen.Topology.Parse.Whole.{parse, parsed}
use xk6_otel_gen.Topology.Parse.Accepted.{parse-validated}
use xk6_otel_gen.Journey.Plan.{Plan, build_plan, ok}
use xk6_otel_gen.Journey.Plan.Validated.{build_plan_validated}

-- For a schema and a heap that Parse returns, BuildPlan returns a plan of that name for each journey of
-- the schema, with fuel for one level per operation.
pub build_plan-parse :
    (fl : Float64) (depth fuel : ℕ) (decoded : Parsed (RawSchema fl.F)) (h : Heap fl.F)
    (s : Schema fl.F) (name : String) (found : Option (Journey fl.F))
    → parse fl depth decoded ≡ some (parsed s h)
    → length (all_schema_operations h s) ≤ fuel
    → lookup name s.journeys ≡ some found
    → (plan : Plan fl.F) × (build_plan h fuel s name ≡ ok plan) × (plan.journey_name ≡ name)
build_plan-parse fl depth fuel decoded h s name found accepted enough there =
    build_plan_validated fl depth fuel h s name found
      (parse-validated fl depth decoded s h accepted) enough there
