-- ===== src/Journey/Engine/Pick.antt =====
-- The choice of a journey by weight.
use xk6_otel_gen.Prelude.{
  String, ◌≡◌, ◌↔◌, inl, inr, refl, sym, subst, true, false, none, some, List, [], ◌∷◌, arith,
  is_empty, Bool-cases, Option-cases,
}
use mathlib.Core.List.{Memᴰ}
use xk6_otel_gen.Topology.Float.{Float64}
use xk6_otel_gen.Topology.Types.{Schema, Journey}
use xk6_otel_gen.Topology.Graph.{get}
use xk6_otel_gen.Journey.Engine.{
  Engine, weight_of, unskipped_weight, total_weight, pick_from, last_weighted, pick_journey,
}

module _ (fl : Float64) where
  open fl use {F, zero_f, lt_f, le_f, add_f, mul_f}

  -- A name among `names` of a journey of the schema whose weight is not below or equal to 0.
  abbrev pub Weighted : Schema F → List String → String → Type 0
  Weighted s names name =
      Memᴰ name names
      × ((j : Journey F) × ((get name s.journeys ≡ some j) × (le_f j.weight zero_f ≡ false)))

  unskipped-weighted :
      (s : Schema F) (name : String) (w : F)
      → unskipped_weight fl s name ≡ some w
      → (j : Journey F) × ((get name s.journeys ≡ some j) × (le_f j.weight zero_f ≡ false))
  unfolding unskipped_weight
  unskipped-weighted s name w weighted = elim (Option-cases (get name s.journeys)) [
    | inl nothing ↦ absurd (ground arith)
    | inr (j, found) ↦ elim (Bool-cases (le_f j.weight zero_f)) [
      | inl light ↦ absurd (ground arith)
      | inr heavy ↦ (j, (found, heavy))
    ]
  ]

  Weighted-cons :
      (s : Schema F) (names : List String) (n name : String)
      → Weighted s names name
      → Weighted s (n ∷ names) name
  Weighted-cons s names n name (m, w) = (Memᴰ.tail m, w)

  Weighted-head :
      (s : Schema F) (names : List String) (n name : String) (w : F)
      → unskipped_weight fl s n ≡ some w
      → n ≡ name
      → Weighted s (n ∷ names) name
  Weighted-head s names n name w weighted e = (
    Memᴰ.head (sym e),
    unskipped-weighted s name w (subst (λ x. unskipped_weight fl s x ≡ some w) e weighted),
  )

  pick_from-Weighted :
      (s : Schema F) (roll cumulative : F) (names : List String) (name : String)
      → pick_from fl s roll cumulative names ≡ some name
      → Weighted s names name
  unfolding pick_from
  pick_from-Weighted s roll cumulative [] name e = absurd (cc)
  pick_from-Weighted s roll cumulative (n ∷ names) name e =
      elim (Option-cases (unskipped_weight fl s n)) [
        | inl unweighted ↦
            Weighted-cons s names n name
              (pick_from-Weighted s roll cumulative names name (ground arith))
        | inr (w, weighted) ↦ elim (Bool-cases (lt_f roll (add_f cumulative w))) [
          | inl hit ↦ Weighted-head s names n name w weighted (ground arith)
          | inr miss ↦
              Weighted-cons s names n name
                (pick_from-Weighted s roll (add_f cumulative w) names name (ground arith))
        ]
      ]

  weight_of-unskipped :
      (s : Schema F) (n : String) (w : F)
      → ((x : F) → lt_f zero_f x ≡ true → le_f x zero_f ≡ false)
      → weight_of fl s n ≡ some w
      → unskipped_weight fl s n ≡ some w
  unfolding weight_of unskipped_weight
  weight_of-unskipped s n w above weighted = elim (Option-cases (get n s.journeys)) [
    | inl nothing ↦ ground arith
    | inr (j, found) ↦ elim (Bool-cases (lt_f zero_f j.weight)) [
      | inl heavy ↦ ground (arith, above j.weight heavy)
      | inr light ↦ absurd (ground arith)
    ]
  ]

  last_weighted-Weighted :
      ((x : F) → lt_f zero_f x ≡ true → le_f x zero_f ≡ false)
      → (s : Schema F) (names : List String) (name : String) → last_weighted fl s names ≡ some name
      → Weighted s names name
  unfolding last_weighted
  last_weighted-Weighted above s [] name e = absurd (cc)
  last_weighted-Weighted above s (n ∷ names) name e =
      elim (Option-cases (last_weighted fl s names)) [
        | inr (later, e') ↦
            Weighted-cons s names n name (last_weighted-Weighted above s names name (ground arith))
        | inl nothing ↦ elim (Option-cases (weight_of fl s n)) [
          | inl unweighted ↦ absurd (ground arith)
          | inr (w, weighted) ↦
              Weighted-head s names n name w (weight_of-unskipped s n w above weighted)
                (ground arith)
        ]
      ]

  last_weighted_empty :
      (s : Schema F) (names : List String) → is_empty names ≡ true → last_weighted fl s names ≡ none
  unfolding last_weighted
  last_weighted_empty s [] e = refl
  last_weighted_empty s (n ∷ names) e = absurd (cc)

  -- Where no name from the end has a weight, the sum of the weights stays as it is.
  total_weight-none :
      (s : Schema F) (total : F) (names : List String)
      → last_weighted fl s names ≡ none
      → total_weight fl s total names ≡ total
  unfolding last_weighted total_weight
  total_weight-none s total [] e = refl
  total_weight-none s total (n ∷ names) e = elim (Option-cases (last_weighted fl s names)) [
    | inr (later, e') ↦ absurd (ground arith)
    | inl nothing ↦ ground (arith, total_weight-none s total names)
  ]

  -- If a float above 0 is not below or equal to 0, then, whatever the draw, a journey that PickJourney
  -- returns is one of the engine's and its weight is not below or equal to 0.
  pub pick_journey-Weighted :
      ((x : F) → lt_f zero_f x ≡ true → le_f x zero_f ≡ false)
      → (e : Engine F) (draw : F) (name : String) → pick_journey fl e draw ≡ some name
      → Weighted e.schema e.journey_keys name
  unfolding pick_journey
  pick_journey-Weighted above e draw name picked =
      elim (Option-cases (
        pick_from fl e.schema (mul_f draw (total_weight fl e.schema zero_f e.journey_keys)) zero_f
          e.journey_keys)) [
            | inr (n, first) ↦
                pick_from-Weighted e.schema
                  (mul_f draw (total_weight fl e.schema zero_f e.journey_keys)) zero_f
                  e.journey_keys name (ground arith)
            | inl passed ↦ last_weighted-Weighted above e.schema e.journey_keys name (ground arith)
          ]

  -- If 0 is below or equal to 0, PickJourney returns no journey exactly if the sum of the weights
  -- above 0 is below or equal to 0, whatever the draw.
  pub pick_journey-none_iff :
      (e : Engine F) (draw : F)
      → le_f zero_f zero_f ≡ true
      → (pick_journey fl e draw ≡ none)
        ↔ (le_f (total_weight fl e.schema zero_f e.journey_keys) zero_f ≡ true)
  unfolding pick_journey
  pick_journey-none_iff e draw reflexive = (
    λ unpicked. elim (Option-cases (last_weighted fl e.schema e.journey_keys)) [
      | inl nothing ↦ rw (total_weight-none e.schema zero_f e.journey_keys nothing) reflexive
      | inr (n, found) ↦ ground (arith, last_weighted_empty e.schema e.journey_keys)
    ],
    λ low. ground arith,
  )
