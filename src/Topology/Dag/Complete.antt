-- ===== src/Topology/Dag/Complete.antt =====
-- The loop of validateDAG ends, and when it has visited every operation the graph has no cycle.
use xk6_otel_gen.Prelude.{
  ℕ, zero, suc, ◌+◌, ◌≤◌, ◌<◌, ◌≡◌, refl, ap, ◌∙◌, some, List, [], ◌∷◌, length, count, arith, ◌==◌,
  ==→eq, if◌then◌else◌, sum_over_full, le_sum_over, length-eq-sum_over, Bool-cases, inl, inr,
}
use native.Mathlib.Numerals.{add-one}
use xk6_otel_gen.Topology.Types.{Heap}
use xk6_otel_gen.Topology.Graph.{outgoing_targets}
use xk6_otel_gen.Topology.Dag.{InDegree, drain, relax_all}
use xk6_otel_gen.Topology.Dag.Invariant.{waiting, Inv, head_lem, visit-Inv}

-- The position of an operation in a list, its length if it is not there.
abbrev pub index : ℕ → List ℕ → ℕ
index v [] = 0
index v (p ∷ ps) = if p == v then 0 else suc (index v ps)

pub index-lt-length : (v : ℕ) (ps : List ℕ) → 0 < count v ps → index v ps < length ps
index-lt-length v [] m = m
index-lt-length v (p ∷ ps) m = ground (arith, index-lt-length v ps)

module _ {F : Type 0} (h : Heap F) (keys : List ℕ) (extra : ℕ → ℕ)
    (unique : (v : ℕ) → count v keys ≤ 1) where
  -- Latest first: an operation is visited after all operations that call it.
  abbrev pub Ordered : List ℕ → Type 0
  Ordered [] = Unit
  Ordered (p ∷ ps) = (waiting h keys extra ps p ≡ 0) × Ordered ps

  abbrev pub Visits : List ℕ → Type 0
  Visits visited = (m : InDegree) × Inv h keys extra visited [] (m, []) × Ordered visited

  pub member_once :
      {visited : List ℕ} {m : InDegree} {queue : List ℕ}
      → Inv h keys extra visited [] (m, queue)
      → (v : ℕ) → 0 < count v visited
      → count v keys ≡ 1
  member_once inv v seen = elim (Bool-cases (count v keys == 0)) [
    | inl outside ↦ absurd (ground (arith, inv.known v))
    | inr inside ↦ ground (arith, unique v)
  ]

  pub count_visited-le :
      {visited : List ℕ} {m : InDegree} {queue : List ℕ}
      → Inv h keys extra visited [] (m, queue)
      → (v : ℕ) → count v visited ≤ 1
  count_visited-le inv v = elim (Bool-cases (count v keys == 0)) [
    | inl outside ↦ ground (arith, inv.known v)
    | inr inside ↦ ground (arith, inv.once v)
  ]

  -- With as many visits as operations, every operation has been visited.
  pub all_visited :
      (visited : List ℕ) {m : InDegree} {queue : List ℕ}
      → Inv h keys extra visited [] (m, queue)
      → length keys ≤ length visited
      → (v : ℕ) → 0 < count v keys
      → count v visited ≡ 1
  all_visited visited inv full v k =
      sum_over_full (λ u. count u visited) v keys (count_visited-le inv)
        (omega (arith, length-eq-sum_over visited keys (member_once inv))) k

  pub drain_total :
      (fuel : ℕ) (m : InDegree) (queue visited : List ℕ)
      → Inv h keys extra visited [] (m, queue)
      → Ordered visited
      → length keys ≤ fuel + length visited
      → (final : List ℕ) × (drain h fuel (m, queue) (length visited) ≡ some (length final))
        × Visits final
  unfolding drain
  drain_total fuel m [] visited inv ordered enough = (visited, refl, (m, inv, ordered))
  drain_total zero m (op ∷ queue) visited inv ordered enough =
      let e : count op visited ≡ 1 =
        all_visited visited inv (omega arith) op
          (ground (arith, (head_lem h keys extra op visited m queue unique inv).1)) in
      absurd (ground (arith, (head_lem h keys extra op visited m queue unique inv).2))
  drain_total (suc fuel) m (op ∷ queue) visited inv ordered enough =
      let (final, e, v) =
        drain_total fuel (relax_all (m, queue) (outgoing_targets h op)).0
          (relax_all (m, queue) (outgoing_targets h op)).1 (op ∷ visited)
          (visit-Inv h keys extra op visited m queue unique inv)
          ((head_lem h keys extra op visited m queue unique inv).0, ordered) (omega arith) in
      (
        final,
        ap (drain h fuel (relax_all (m, queue) (outgoing_targets h op))) (add-one (length visited))
            ∙ e,
        v,
      )

  -- A caller of a visited operation has been visited before.
  caller_visited :
      (u v : ℕ) (visited : List ℕ)
      → Ordered visited
      → 0 < count u keys
      → 0 < count v (outgoing_targets h u)
      → 0 < count v visited
      → 0 < count u visited
  caller_visited u v [] ordered k edge m = m
  caller_visited u v (p ∷ ps) ordered k edge m = elim (Bool-cases (p == v)) [
    | inl here ↦ ground (
      arith,
      ==→eq p v here,
      le_sum_over (λ x. if count x ps == 0 then count v (outgoing_targets h x) else 0) u keys k,
    )
    | inr later ↦ ground (arith, caller_visited u v ps ordered.1 k edge)
  ]

  pub index-lt :
      (u v : ℕ) (visited : List ℕ)
      → Ordered visited
      → ((w : ℕ) → count w visited ≤ 1)
      → 0 < count u keys
      → 0 < count v (outgoing_targets h u)
      → 0 < count v visited
      → index v visited < index u visited
  index-lt u v [] ordered single k edge m = m
  index-lt u v (p ∷ ps) ordered single k edge m = elim (Bool-cases (p == v)) [
    | inl here ↦ ground (
      arith,
      ==→eq p v here,
      single u,
      le_sum_over (λ x. if count x ps == 0 then count v (outgoing_targets h x) else 0) u keys k,
    )
    | inr later ↦ ground (
      arith,
      single u,
      caller_visited u v ps ordered.1 k edge,
      index-lt u v ps ordered.1 (λ w. omega (arith, single w)) k edge,
    )
  ]
