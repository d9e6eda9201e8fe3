-- ===== src/Topology/Marshal/Leaves.antt =====
-- What topology/parse.go makes of the parts of an operation that topology/marshal.go writes.
use xk6_otel_gen.Prelude.{
  ℕ, suc, ◌≡◌, refl, Bool, true, false, not, Option, none, some, List, [], ◌∷◌, All, map,
  append-eq-nil, ==_self, if◌then◌else◌,
}
use xk6_otel_gen.Prelude.Int.{ℤ, eq_ℤ}
use xk6_otel_gen.Topology.Float.{Float64}
use xk6_otel_gen.Topology.Types.{MetricFaultLink}
use xk6_otel_gen.Topology.Errors.{FieldPath, ValidationError}
use xk6_otel_gen.Topology.Graph.{collect_from}
use xk6_otel_gen.Topology.Validate.Domain.{report}
use xk6_otel_gen.Topology.Parse.{resolve_each}
use xk6_otel_gen.Topology.Marshal.{marshal_each}
use xk6_otel_gen.Topology.Equal.{equal_each, equal_each-cons}

pub report-quiet :
    (valid : Bool) (path : FieldPath) (rule : _) → report (not valid) path rule ≡ [] → valid ≡ true
report-quiet true path rule quiet = refl
report-quiet false path rule quiet = absurd cc

module _ {ℓ κ} {A : Type ℓ} {B : Type κ} (m : A → B) (r : B → A) where
  pub resolve_each-marshal_each :
      (xs : List A) → resolve_each r (marshal_each m xs) ≡ map (λ x. r (m x)) xs
  unfolding resolve_each
  resolve_each-marshal_each [] = refl
  resolve_each-marshal_each (x ∷ xs) = cc (resolve_each-marshal_each xs)

  -- A list whose elements a quiet loop finds valid, where a valid element is restored.
  pub restored_each {μ} :
      (P : A → Type μ) (check : ℕ → A → List ValidationError)
      → ((i : ℕ) (x : A) → P x → check i x ≡ [] → r (m x) ≡ x)
      → (i : ℕ) (xs : List A) → All P xs
      → collect_from i check xs ≡ []
      → resolve_each r (marshal_each m xs) ≡ xs
  unfolding resolve_each collect_from
  restored_each P check restored i [] all quiet = refl
  restored_each P check restored i (x ∷ xs) all quiet =
      let (here, later) = append-eq-nil (check i x) (collect_from (suc i) check xs) quiet in
      cc (restored i x all.0 here, restored_each P check restored (suc i) xs all.1 later)

  -- The same up to an equality, for elements with a property that the check does not give.
  pub equal_restored_each {μ} :
      (eq : A → A → Bool) (P : A → Type μ) (check : ℕ → A → List ValidationError)
      → ((i : ℕ) (x : A) → P x → check i x ≡ [] → eq (r (m x)) x ≡ true)
      → (i : ℕ) (xs : List A) → All P xs
      → collect_from i check xs ≡ []
      → equal_each eq (resolve_each r (marshal_each m xs)) xs ≡ true
  unfolding resolve_each collect_from
  equal_restored_each eq P check restored i [] all quiet = unfold equal_each in refl
  equal_restored_each eq P check restored i (x ∷ xs) all quiet =
      let (here, later) = append-eq-nil (check i x) (collect_from (suc i) check xs) quiet in
      equal_each-cons eq (r (m x)) x (resolve_each r (marshal_each m xs)) xs
        (restored i x all.0 here) (equal_restored_each eq P check restored (suc i) xs all.1 later)

-- The comparison of floats: equality is reflexive but for NaN, and symmetric, and 0 is a number.
pub record EqLaws (fl : Float64) : Type 0 where
  pub eq_self : (x : fl.F) → fl.is_nan x ≡ false → fl.eq_f x x ≡ true
  pub eq_sym : (x y : fl.F) → fl.eq_f x y ≡ true → fl.eq_f y x ≡ true

-- The number of a fault link that YAML does not keep: the delta beside a value, or a value that does
-- not count.
abbrev pub unkept : (fl : Float64) → MetricFaultLink fl.F → fl.F
unkept fl link = if link.has_value then link.delta else link.value

-- A fault link of which YAML keeps all: the other number is 0.
abbrev pub IsKept : (fl : Float64) → Option (MetricFaultLink fl.F) → Type 0
IsKept fl none = Unit
IsKept fl (some link) = fl.eq_f fl.zero_f (unkept fl link) ≡ true

pub eq_ℤ_self : (a : ℤ) → eq_ℤ a a ≡ true
eq_ℤ_self a = ==_self _
