-- ===== src/Journey/Engine.antt =====
-- journey/engine.go: the construction of an engine and the choice of a journey. Sorting the names
-- (sort.Strings) and the draw of the random source are arguments.
pub mod Start
pub mod Pick
use xk6_otel_gen.Prelude.{
  ℕ, String, Bool, true, false, Option, none, some, List, [], ◌∷◌, map, is_empty, if◌then◌else◌,
}
use xk6_otel_gen.Topology.Float.{Float64}
use xk6_otel_gen.Topology.Types.{Heap, Schema, Journey}
use xk6_otel_gen.Topology.Faults.{FaultOverlay}
use xk6_otel_gen.Topology.Graph.{get, lookup, all_schema_operations}
use xk6_otel_gen.Journey.Plan.{
  Plan, PlanError, Result, ok, err, fail, unknown_journey, Label, build_plan,
}

-- The fields of engineImpl that its construction sets up, without the synthesizer, the random source,
-- the start and the intensity of faults, which no modelled method of the engine reads.
pub record Engine (F : Type 0) : Type 0 where
  pub schema : Schema F
  pub overlay : FaultOverlay F
  pub plans : List (String × Plan F)
  pub journey_keys : List String

-- Why a constructor panics: an argument is nil, or a plan cannot be built.
pub data Panic : Type 0 where
  nil_schema nil_overlay nil_synth : Panic
  not_built : PlanError → Panic

-- A constructor that may panic.
pub data Startup (F : Type 0) : Type 0 where
  started : Engine F → Startup F
  panicked : Panic → Startup F

module _ {F : Type 0} (h : Heap F) (fuel : ℕ) where
  -- The loop that builds a plan for every journey.
  unfoldable pub build_plans :
      Schema F → List (String × Option (Journey F)) → Result (List (String × Plan F))
  build_plans s [] = ok []
  build_plans s ((name, journey) ∷ rest) =
      let others = build_plans s rest in
      elim (build_plan h fuel s name) [
        | err e ↦ err e
        | ok plan ↦ elim others [ err e ↦ err e | ok plans ↦ ok ((name, plan) ∷ plans) ]
      ]

  -- NewEngine with the schema, the overlay and the synthesizer, of any type, each nil or not.
  unfoldable pub new_engine {ℓ} :
      {S : Type ℓ}
      → (List String → List String)
      → Option (Schema F)
      → Option (FaultOverlay F)
      → Option S
      → Startup F
  new_engine sort_strings none overlay syn = panicked nil_schema
  new_engine sort_strings (some s) none syn = panicked nil_overlay
  new_engine sort_strings (some s) (some overlay) none = panicked nil_synth
  new_engine sort_strings (some s) (some overlay) (some syn) = elim (build_plans s s.journeys) [
    | err e ↦ panicked (not_built e)
    | ok plans ↦ started (record {
      schema = s;
      overlay = overlay;
      plans = plans;
      journey_keys = sort_strings (map (λ entry. entry.0) plans);
    })
  ]

-- BuildPlan: the plan built at the start.
unfoldable pub cached_plan : {F : Type 0} → Engine F → String → Result (Plan F)
cached_plan e name = elim (lookup name e.plans) [
  | none ↦ fail unknown_journey (Label.name name ∷ [])
  | some plan ↦ ok plan
]

module _ (fl : Float64) where
  open fl use {F, zero_f, lt_f, le_f, add_f, mul_f}

  -- journey != nil && journey.Weight > 0
  unfoldable pub weight_of : Schema F → String → Option F
  weight_of s name = elim (get name s.journeys) [
    | none ↦ none
    | some j ↦ if lt_f zero_f j.weight then some j.weight else none
  ]

  -- The weight of a journey that the loop over the running sum does not skip: on NaN the two tests
  -- of the source differ.
  unfoldable pub unskipped_weight : Schema F → String → Option F
  unskipped_weight s name = elim (get name s.journeys) [
    | none ↦ none
    | some j ↦ if le_f j.weight zero_f then none else some j.weight
  ]

  unfoldable pub total_weight : Schema F → F → List String → F
  total_weight s total [] = total
  total_weight s total (name ∷ names) = elim (weight_of s name) [
    | none ↦ total_weight s total names
    | some w ↦ total_weight s (add_f total w) names
  ]

  -- The first name at which the running sum passes the roll.
  unfoldable pub pick_from : Schema F → F → F → List String → Option String
  pick_from s roll cumulative [] = none
  pick_from s roll cumulative (name ∷ names) =
      let next = λ (w : F). pick_from s roll (add_f cumulative w) names in
      let skipped = pick_from s roll cumulative names in
      elim (unskipped_weight s name) [
        | none ↦ skipped
        | some w ↦ if lt_f roll (add_f cumulative w) then some name else next w
      ]

  -- The last name with a weight: the loop from the end.
  unfoldable pub last_weighted : Schema F → List String → Option String
  last_weighted s [] = none
  last_weighted s (name ∷ names) = elim (last_weighted s names) [
    | some later ↦ some later
    | none ↦ elim (weight_of s name) [ none ↦ none | some w ↦ some name ]
  ]

  -- PickJourney, `none` for the empty text. `draw` is what the random source returns.
  unfoldable pub pick_journey : Engine F → F → Option String
  pick_journey e draw =
      let total = total_weight e.schema zero_f e.journey_keys in
      if is_empty e.journey_keys
      then none
      else if le_f total zero_f
      then none
      else elim (pick_from e.schema (mul_f draw total) zero_f e.journey_keys) [
        | some name ↦ some name
        | none ↦ last_weighted e.schema e.journey_keys
      ]
