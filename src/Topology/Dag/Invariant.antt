-- ===== src/Topology/Dag/Invariant.antt =====
-- What holds between two rounds of the loop over the queue.
use xk6_otel_gen.Prelude.{
  ℕ, suc, ◌+◌, ◌≤◌, ◌<◌, ◌≡◌, none, some, List, [], ◌∷◌, count, count-append, ◌++◌, arith, ◌==◌,
  if◌then◌else◌, sum_over, sum_over-drop, Bool-cases, inl, inr,
}
use xk6_otel_gen.Prelude.Int.{pos, ◌-ℤ◌}
use xk6_otel_gen.Topology.Types.{Heap}
use xk6_otel_gen.Topology.Graph.{outgoing_targets}
use xk6_otel_gen.Topology.Dag.{InDegree, Frontier, degree, assign, relax, relax_all}
use xk6_otel_gen.Topology.Dag.Degrees.{degree-assign}

-- `keys` are the operations of the map. `extra` is what a map holds beyond the edges between them,
-- and no round takes that away.
module _ {F : Type 0} (h : Heap F) (keys : List ℕ) (extra : ℕ → ℕ) where
  -- The edges into `v` from operations that have not been visited.
  abbrev pub waiting : List ℕ → ℕ → ℕ
  waiting visited v =
      sum_over (λ u. if count u visited == 0 then count v (outgoing_targets h u) else 0) keys
      + extra v

  -- `rest` are the targets that the inner loop has still to go through.
  pub record Inv (visited rest : List ℕ) (s : Frontier) : Type 0 where
    pub degrees :
        (v : ℕ) → 0 < count v keys → degree v s.0 ≡ some (pos (waiting visited v + count v rest))
    pub absent : (v : ℕ) → count v keys ≡ 0 → degree v s.0 ≡ none
    -- An operation waits for an edge, stands in the queue or has been visited.
    pub once :
        (v : ℕ)
        → 0 < count v keys
        → count v s.1 + count v visited + (if waiting visited v + count v rest == 0 then 0 else 1)
          ≡ 1
    pub known : (v : ℕ) → count v keys ≡ 0 → count v s.1 + count v visited ≡ 0

  waiting_visit :
      (op : ℕ) (visited : List ℕ) (v : ℕ)
      → count op keys ≡ 1
      → count op visited ≡ 0
      → waiting visited v ≡ waiting (op ∷ visited) v + count v (outgoing_targets h op)
  waiting_visit op visited v one fresh = ground (
    arith,
    sum_over-drop (λ u. if count u visited == 0 then count v (outgoing_targets h u) else 0)
        (λ u. if count u (op ∷ visited) == 0 then count v (outgoing_targets h u) else 0) op keys
        (λ u. ground arith),
  )

  relax_outside :
      (c : ℕ) (m : InDegree) (queue : List ℕ) → degree c m ≡ none → relax (m, queue) c ≡ (m, queue)
  unfolding relax
  relax_outside c m queue d = ground arith

  relax_inside :
      (c n : ℕ) (m : InDegree) (queue : List ℕ)
      → degree c m ≡ some (pos (suc n))
      → relax (m, queue) c ≡ (assign c (pos n) m, if n == 0 then queue ++ c ∷ [] else queue)
  unfolding relax ◌-ℤ◌
  relax_inside c n m queue d = ground arith

  pub relax-Inv :
      (visited rest : List ℕ) (c : ℕ) (m : InDegree) (queue : List ℕ)
      → Inv visited (c ∷ rest) (m, queue)
      → Inv visited rest (relax (m, queue) c)
  relax-Inv visited rest c m queue inv = elim (Bool-cases (count c keys == 0)) [
    | inl outside ↦ rw (relax_outside c m queue (inv.absent c (ground arith))) (record {
      degrees = λ v k. ground (arith, inv.degrees v k);
      absent = inv.absent;
      once = λ v k. ground (arith, inv.once v k);
      known = inv.known;
    })
    | inr inside ↦
        rw
          (relax_inside c (waiting visited c + count c rest) m queue
            (ground (arith, inv.degrees c)))
          (record {
            degrees = λ v k. ground (
              arith,
              inv.degrees v k,
              degree-assign v c (pos (waiting visited c + count c rest)) m,
            );
            absent = λ v k. ground (
              arith,
              inv.absent v k,
              degree-assign v c (pos (waiting visited c + count c rest)) m,
            );
            once = λ v k. ground (arith, inv.once v k, inv.once c, count-append v queue (c ∷ []));
            known = λ v k. ground (arith, inv.known v k, count-append v queue (c ∷ []));
          })
  ]

  relax_all-Inv :
      (visited rest : List ℕ) (s : Frontier)
      → Inv visited rest s
      → Inv visited [] (relax_all s rest)
  unfolding relax_all
  relax_all-Inv visited [] s inv = inv
  relax_all-Inv visited (c ∷ rest) (m, queue) inv =
      relax_all-Inv visited rest (relax (m, queue) c) (relax-Inv visited rest c m queue inv)

  module _ (op : ℕ) (visited : List ℕ) (m : InDegree) (queue : List ℕ)
      (unique : (v : ℕ) → count v keys ≤ 1) (inv : Inv visited [] (m, op ∷ queue)) where
    -- The operation at the head of the queue is one of the map, waits for nothing and is new.
    pub head_lem : (waiting visited op ≡ 0) × (count op keys ≡ 1) × (count op visited ≡ 0)
    head_lem = elim (Bool-cases (count op keys == 0)) [
      | inl outside ↦ absurd (ground (arith, inv.known op))
      | inr inside ↦ ground (arith, inv.once op, unique op)
    ]

    pub visit-Inv : Inv (op ∷ visited) [] (relax_all (m, queue) (outgoing_targets h op))
    visit-Inv =
        relax_all-Inv (op ∷ visited) (outgoing_targets h op) (m, queue)
          (record {
            degrees = λ v k.
                ground (arith, inv.degrees v k, waiting_visit op visited v head_lem.1 head_lem.2);
            absent = inv.absent;
            once = λ v k.
                ground (arith, inv.once v k, waiting_visit op visited v head_lem.1 head_lem.2);
            known = λ v k. ground (arith, inv.known v k);
          })
