-- ===== src/Prelude/Sums.antt =====
-- Sums over a list of references.
use Prim.Native.Nat.{ℕ, ◌+◌, ◌*◌, ◌≤◌, ◌<◌}
use mathlib.Core.Path.{◌≡◌, refl}
use mathlib.Core.List.{List, [], ◌∷◌}
use native.Mathlib.Omega.{arith}
use mathlib.Core.Logic.{inl, inr}
use xk6_otel_gen.Prelude.Tests.{◌==◌, if◌then◌else◌, Bool-cases, ==→eq}
use xk6_otel_gen.Prelude.Lists.{length, count}

unfoldable pub sum_over : (ℕ → ℕ) → List ℕ → ℕ
sum_over f [] = 0
sum_over f (x ∷ xs) = f x + sum_over f xs

pub sum_over-add :
    (f g : ℕ → ℕ) (xs : List ℕ) → sum_over (λ x. f x + g x) xs ≡ sum_over f xs + sum_over g xs
unfolding sum_over
sum_over-add f g [] = omega arith
sum_over-add f g (x ∷ xs) = omega (arith, sum_over-add f g xs)

pub sum_over-zero : (xs : List ℕ) → sum_over (λ _. 0) xs ≡ 0
unfolding sum_over
sum_over-zero [] = refl
sum_over-zero (x ∷ xs) = omega (arith, sum_over-zero xs)

pub sum_over-is : (a : ℕ) (xs : List ℕ) → sum_over (λ x. if a == x then 1 else 0) xs ≡ count a xs
unfolding sum_over
sum_over-is a [] = refl
sum_over-is a (x ∷ xs) = ground (arith, sum_over-is a xs)

-- Taking one summand away.
pub sum_over-drop :
    (f g : ℕ → ℕ) (a : ℕ) (xs : List ℕ)
    → ((x : ℕ) → f x ≡ (if a == x then g x + f a else g x))
    → sum_over f xs ≡ sum_over g xs + count a xs * f a
unfolding sum_over
sum_over-drop f g a [] h = omega arith
sum_over-drop f g a (x ∷ xs) h = grind (arith, h x, sum_over-drop f g a xs h)

pub le_sum_over : (f : ℕ → ℕ) (a : ℕ) (xs : List ℕ) → 0 < count a xs → f a ≤ sum_over f xs
unfolding sum_over
le_sum_over f a [] h = omega arith
le_sum_over f a (x ∷ xs) h = grind (arith, le_sum_over f a xs)

pub sum_over-le-length : (f : ℕ → ℕ) (xs : List ℕ) → ((x : ℕ) → f x ≤ 1) → sum_over f xs ≤ length xs
unfolding sum_over
sum_over-le-length f [] h = omega arith
sum_over-le-length f (x ∷ xs) h = omega (arith, h x, sum_over-le-length f xs h)

-- A sum of values of at most one that reaches the length has no zero among them.
pub sum_over_full :
    (f : ℕ → ℕ) (a : ℕ) (xs : List ℕ)
    → ((x : ℕ) → f x ≤ 1)
    → length xs ≤ sum_over f xs
    → 0 < count a xs
    → f a ≡ 1
unfolding sum_over
sum_over_full f a [] h le m = absurd (omega arith)
sum_over_full f a (x ∷ xs) h le m = elim (Bool-cases (x == a)) [
  | inl here ↦ let e = ==→eq x a here in rw (← e) (omega (arith, h x, sum_over-le-length f xs h))
  | inr other ↦ sum_over_full f a xs h (omega (arith, h x)) (ground arith)
]

-- A list whose members stand once in `xs` is as long as its counts over `xs` add up to.
pub length-eq-sum_over :
    (ps xs : List ℕ)
    → ((v : ℕ) → 0 < count v ps → count v xs ≡ 1)
    → length ps ≡ sum_over (λ v. count v ps) xs
length-eq-sum_over [] xs h = omega (arith, sum_over-zero xs)
length-eq-sum_over (p ∷ ps) xs h = omega (
  arith,
  sum_over-add (λ v. if p == v then 1 else 0) (λ v. count v ps) xs,
  sum_over-is p xs,
  h p (ground arith),
  length-eq-sum_over ps xs (λ v m. h v (omega arith)),
)

pub length-eq-sum_over_one : (xs : List ℕ) → length xs ≡ sum_over (λ _. 1) xs
unfolding sum_over
length-eq-sum_over_one [] = refl
length-eq-sum_over_one (x ∷ xs) = omega (arith, length-eq-sum_over_one xs)

pub sum_over_pos :
    (f : ℕ → ℕ) (xs : List ℕ) → 0 < sum_over f xs → (x : ℕ) × (0 < count x xs) × (0 < f x)
unfolding sum_over
sum_over_pos f [] h = elim h [ ]
sum_over_pos f (x ∷ xs) h = elim (Bool-cases (f x == 0)) [
  | inl zero_here ↦ let (y, m, p) = sum_over_pos f xs (ground arith) in (y, omega arith, p)
  | inr here ↦ (x, ground arith, ground arith)
]

pub sum_over_ones :
    (f : ℕ → ℕ) (xs : List ℕ) → ((x : ℕ) → 0 < count x xs → f x ≡ 1) → sum_over f xs ≡ length xs
unfolding sum_over
sum_over_ones f [] h = refl
sum_over_ones f (x ∷ xs) h =
    omega (arith, h x (ground arith), sum_over_ones f xs (λ y m. h y (omega arith)))
