-- ===== src/Journey/Engine/Start.antt =====
-- The construction of an engine from a validated topology.
use text.Mathlib.TextPositions.{eq_refl}
use xk6_otel_gen.Prelude.{
  ℕ, ◌≤◌, String, ◌≡◌, refl, subst, Option, some, List, [], ◌∷◌, length, map, str_eq, eq_iff,
  Bool-cases, inl, inr,
}
use xk6_otel_gen.Topology.Float.{Float64}
use xk6_otel_gen.Topology.Types.{Heap, Schema, Journey}
use xk6_otel_gen.Topology.Faults.{FaultOverlay}
use xk6_otel_gen.Topology.Graph.{lookup, all_schema_operations}
use xk6_otel_gen.Topology.Validate.Whole.{validate}
use xk6_otel_gen.Journey.Plan.{Plan, ok, build_plan}
use xk6_otel_gen.Journey.Plan.Validated.{build_plan_validated}
use xk6_otel_gen.Journey.Engine.{Engine, started, build_plans, new_engine, cached_plan}

module _ {F : Type 0} (h : Heap F) (fuel : ℕ) (s : Schema F) where
  abbrev Plannable : List (String × Option (Journey F)) → Type 0
  Plannable js =
      (name : String) (found : Option (Journey F))
      → lookup name js ≡ some found
      → (plan : Plan F) × (build_plan h fuel s name ≡ ok plan)

  -- An entry that stands behind another one of its key can be planned as that one.
  Plannable-tail :
      (name : String) (j : Option (Journey F)) (js : List (String × Option (Journey F)))
      → Plannable ((name, j) ∷ js)
      → Plannable js
  unfolding lookup
  Plannable-tail name j js all other found there = elim (Bool-cases (str_eq name other)) [
    | inl same_key ↦ all other j (rw same_key)
    | inr differs ↦ all other found (rw differs there)
  ]

  build_plans_succeeds :
      (js : List (String × Option (Journey F)))
      → Plannable js
      → (plans : List (String × Plan F)) × (build_plans h fuel s js ≡ ok plans)
        × ((name : String) (found : Option (Journey F))
            → lookup name js ≡ some found
            → (plan : Plan F) × (lookup name plans ≡ some plan)
              × (build_plan h fuel s name ≡ ok plan))
  unfolding lookup build_plans
  build_plans_succeeds [] all = ([], refl, λ name found there. absurd (cc))
  build_plans_succeeds ((name, j) ∷ js) all =
      let (plan, built) = all name j (rw eq_refl) in
      let (plans, others, cached) = build_plans_succeeds js (Plannable-tail name j js all) in
      (
        (name, plan) ∷ plans,
        rw (built, build_plans) (rw (others, build_plans)),
        λ other found there. elim (Bool-cases (str_eq name other)) [
          | inl same_key ↦ (
            plan,
            rw same_key,
            subst (λ n. build_plan h fuel s n ≡ ok plan) ((eq_iff name other).0 same_key) built,
          )
          | inr differs ↦
              let (p, there', b) = cached other found (rw differs at there) in
              (p, rw differs there', b)
        ],
      )

-- With an overlay and a synthesizer that are not nil, and fuel for one level per operation, NewEngine
-- does not panic on a topology that Validate accepts, and BuildPlan then returns, for every
-- journey of the topology, the plan that was built for it.
pub new_engine_validated {ℓ} :
    {S : Type ℓ} (fl : Float64) (depth fuel : ℕ) (sort_strings : List String → List String)
    (h : Heap fl.F) (s : Schema fl.F) (overlay : FaultOverlay fl.F) (syn : S)
    → validate fl depth h (some s) ≡ some []
    → length (all_schema_operations h s) ≤ fuel
    → (e : Engine fl.F) × (new_engine h fuel sort_strings (some s) (some overlay) (some syn)
        ≡ started e)
      × ((name : String) (found : Option (Journey fl.F))
          → lookup name s.journeys ≡ some found
          → (plan : Plan fl.F) × (cached_plan e name ≡ ok plan)
            × (build_plan h fuel s name ≡ ok plan))
unfolding new_engine cached_plan
new_engine_validated fl depth fuel sort_strings h s overlay syn quiet enough =
    let (plans, built, cached) = build_plans_succeeds h fuel s s.journeys (λ name found there.
      let (plan, e, _) = build_plan_validated fl depth fuel h s name found quiet enough there in
      (plan, e)) in
    (
      record {
        schema = s;
        overlay = overlay;
        plans = plans;
        journey_keys = sort_strings (map (λ entry. entry.0) plans);
      },
      rw (built, new_engine),
      λ name found there.
          let (plan, there', b) = cached name found there in (plan, rw (there', cached_plan), b),
    )
