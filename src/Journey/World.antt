-- ===== src/Journey/World.antt =====
-- What an execution reads from outside the plan: the engine's shared random source, the engine's atomic
-- fault intensities, the clock, the context, and whether the tracer gives a valid span context. Each
-- reading takes the world to its next state; `fork` gives a goroutine the readings that it will take
-- part in, whatever the interleaving.

use xk6_otel_gen.Prelude.{String, Bool, Option, none, some, List, [], ◌++◌}
use xk6_otel_gen.Prelude.Int.{ℤ}
use xk6_otel_gen.Topology.Types.{Duration}

pub record World (F : Type 0) : Type 1 where
  pub W : Type 0
  -- rand.Float64() and rand.IntN(n), the latter for n > 1.
  pub random_float : W → F × W
  pub random_int : ℤ → W → ℤ × W
  -- faultIntensity.Load() and targetFaultIntensities.Load(target).
  pub engine_intensity : W → F × W
  pub target_intensity : String → W → Option F × W
  -- time.Since(startedAt)
  pub elapsed : W → Duration × W
  -- ctx.Err() != nil
  pub is_canceled : W → Bool × W
  -- IsValid() of the span context of a span just begun.
  pub has_valid_span : W → Bool × W
  pub fork : W → W × W

-- A computation that reads a world, emits events E, and ends unless its fuel runs out.
abbrev pub Exec : Type 0 → Type 0 → Type 0 → Type 0
Exec W E A = W → Option (A × (List E × W))

module _ {W E : Type 0} where
  abbrev pub return : {A : Type 0} → A → Exec W E A
  return a w = some (a, ([], w))

  abbrev pub with_events :
      {A : Type 0} → List E → Option (A × (List E × W)) → Option (A × (List E × W))
  with_events es none = none
  with_events es (some (a, (es', w))) = some (a, (es ++ es', w))

  abbrev pub after :
      {A B : Type 0} → Option (A × (List E × W)) → (A → Exec W E B) → Option (B × (List E × W))
  after none f = none
  after (some (a, (es, w))) f = with_events es (f a w)

  infixl 5 ◌>>=◌
  abbrev pub ◌>>=◌ : {A B : Type 0} → Exec W E A → (A → Exec W E B) → Exec W E B
  m >>= f = λ w. after (m w) f

  abbrev pub emit : List E → Exec W E Unit
  emit es w = some (tt, (es, w))

  abbrev pub out_of_fuel : {A : Type 0} → Exec W E A
  out_of_fuel w = none

  abbrev pub read : {A : Type 0} → (W → A × W) → Exec W E A
  read f w = let (a, w') = f w in some (a, ([], w'))

  -- A goroutine: it runs in a world of its own, and its starter goes on in the other.
  abbrev pub in_branch : {A : Type 0} → Option (A × (List E × W)) → W → Option (A × (List E × W))
  in_branch none w = none
  in_branch (some (a, (es, w'))) w = some (a, (es, w))

  abbrev pub branch : {A : Type 0} → (W → W × W) → Exec W E A → Exec W E A
  branch fork m w = let (w1, w2) = fork w in in_branch (m w1) w2
