-- ===== src/Journey/Outcome/Aggregate.antt =====
-- journey/executor.go: the outcome of a parallel group, against a description of it.
use xk6_otel_gen.Prelude.{
  ◌≡◌, refl, inl, inr, true, false, Option, none, some, List, [], ◌∷◌, if◌then◌else◌, Bool-cases,
  arith, sym, subst,
}
use mathlib.Core.List.{Memᴰ}
use xk6_otel_gen.Prelude.Int.{pos, ◌≤ℤ◌, max_ℤ}
use xk6_otel_gen.Topology.Types.{Duration}
use xk6_otel_gen.Journey.Outcome.{
  Outcome, outcome, merge_outcome, merge_outcomes, aggregate_parallel_outcomes,
}

-- The first outcome that failed.
abbrev pub first_failure : List Outcome → Option Outcome
first_failure [] = none
first_failure (o ∷ os) = if o.success then first_failure os else some o

abbrev pub longest : Duration → List Outcome → Duration
longest d [] = d
longest d (o ∷ os) = longest (max_ℤ d o.latency) os

-- A group that ends after d, with the failure that it reports.
abbrev pub group_outcome : Option Outcome → Duration → Outcome
group_outcome none d = outcome true (pos 200) "" d
group_outcome (some o) d = record (outcome false o.status_code o.error_type d) {
  cascaded = o.cascaded;
}

module _ (agg o : Outcome) where
  merge_failed :
      agg.success ≡ false
      → merge_outcome agg o ≡ record agg { latency = max_ℤ agg.latency o.latency }
  unfolding merge_outcome
  merge_failed failed = ground arith

merge_success :
    (d : Duration) (o : Outcome)
    → o.success ≡ true
    → merge_outcome (group_outcome none d) o ≡ group_outcome none (max_ℤ d o.latency)
unfolding merge_outcome
merge_success d o passed = rw passed refl

merge_failure :
    (d : Duration) (o : Outcome)
    → o.success ≡ false
    → merge_outcome (group_outcome none d) o ≡ group_outcome (some o) (max_ℤ d o.latency)
unfolding merge_outcome
merge_failure d o failed = rw failed refl

merge_all_failed :
    (agg : Outcome) (os : List Outcome)
    → agg.success ≡ false
    → merge_outcomes agg os ≡ record agg { latency = longest agg.latency os }
unfolding merge_outcomes
merge_all_failed agg [] failed = refl
merge_all_failed agg (o ∷ os) failed =
    rw (merge_failed agg o failed)
      (merge_all_failed (record agg { latency = max_ℤ agg.latency o.latency }) os failed)

merge_all :
    (d : Duration) (os : List Outcome)
    → merge_outcomes (group_outcome none d) os ≡ group_outcome (first_failure os) (longest d os)
unfolding merge_outcomes
merge_all d [] = refl
merge_all d (o ∷ os) = elim (Bool-cases o.success) [
  | inl passed ↦ rw (merge_success d o passed, passed) (merge_all (max_ℤ d o.latency) os)
  | inr failed ↦
      rw (merge_failure d o failed, failed)
        (merge_all_failed (group_outcome (some o) (max_ℤ d o.latency)) os refl)
]

longest_start : (d : Duration) (os : List Outcome) → d ≤ℤ longest d os
longest_start d [] = omega arith
longest_start d (o ∷ os) = ground (arith, longest_start (max_ℤ d o.latency) os)

longest_member :
    (d : Duration) (os : List Outcome) (o : Outcome) → Memᴰ o os → o.latency ≤ℤ longest d os
longest_member d [] o m = elim m [ ]
longest_member d (p ∷ os) o (Memᴰ.head e) =
    subst (λ q. q.latency ≤ℤ longest d (p ∷ os)) (sym e)
      (ground (arith, longest_start (max_ℤ d p.latency) os))
longest_member d (p ∷ os) o (Memᴰ.tail m) = longest_member (max_ℤ d p.latency) os o m

aggregate_all :
    (os : List Outcome)
    → aggregate_parallel_outcomes os ≡ group_outcome (first_failure os) (longest (pos 0) os)
unfolding aggregate_parallel_outcomes
aggregate_all os = merge_all (pos 0) os

group_latency : (f : Option Outcome) (d : Duration) → (group_outcome f d).latency ≡ d
group_latency none d = refl
group_latency (some o) d = refl

latency_of : (os : List Outcome) → (aggregate_parallel_outcomes os).latency ≡ longest (pos 0) os
latency_of os = rw (aggregate_all os) (group_latency (first_failure os) (longest (pos 0) os))

-- The outcome of a parallel group has the status, the error type and the cascade flag of its first
-- failure in the order of the group, is a success with status 200 if there is none, uses no recovery,
-- and lasts as long as the longest of its members (0 without any), which no member exceeds.
pub aggregate_parallel_outcomes_lem :
    (os : List Outcome)
    → (aggregate_parallel_outcomes os ≡ group_outcome (first_failure os) (longest (pos 0) os))
      × ((o : Outcome) → Memᴰ o os → o.latency ≤ℤ (aggregate_parallel_outcomes os).latency)
aggregate_parallel_outcomes_lem os = (
  aggregate_all os,
  λ o m. subst (λ d. o.latency ≤ℤ d) (sym (latency_of os)) (longest_member (pos 0) os o m),
)
