-- ===== src/Topology/Dag/Acyclic.antt =====
-- What validateDAG of topology/validate.go decides.
use xk6_otel_gen.Prelude.{
  ℕ, zero, suc, ◌+◌, ◌-◌, ◌≤◌, ◌<◌, ◌≡◌, some, List, [], ◌∷◌, length, count, arith, ◌==◌,
  if◌then◌else◌, sum_over, Bool-cases, inl, inr, length-map, le_sum_over, sum_over_pos,
  sum_over_ones, length-eq-sum_over, length-eq-sum_over_one,
}
use xk6_otel_gen.Prelude.Int.{ℤ, pos, eq_ℤ}
use xk6_otel_gen.Topology.Types.{Heap, Schema}
use xk6_otel_gen.Topology.Errors.{ValidationError, one_error, key}
use xk6_otel_gen.Topology.Graph.{outgoing_targets, all_schema_operations}
use xk6_otel_gen.Topology.Dag.{
  InDegree, operations_of, degree, ready, in_degrees, drain, validate_dag,
}
use xk6_otel_gen.Topology.Dag.Degrees.{
  degree-in_degrees, count-in_degrees, sum_over-in_degrees, edges_into,
  operations_of-in_degrees_single,
}
use xk6_otel_gen.Topology.Dag.Invariant.{Inv}
use xk6_otel_gen.Topology.Dag.Complete.{
  Visits, drain_total, member_once, all_visited, index, index-lt, index-lt-length, count_visited-le,
}

count-ready-le : (v : ℕ) (m : InDegree) → count v (ready m) ≤ count v (operations_of m)
unfolding ready
count-ready-le v [] = omega arith
count-ready-le v ((k, d) ∷ m) = ground (arith, count-ready-le v m)

-- The first part of the queue holds each operation of degree 0 once.
count-ready :
    (v : ℕ) (m : InDegree) (d : ℤ)
    → count v (operations_of m) ≤ 1
    → degree v m ≡ some d
    → count v (ready m) ≡ (if eq_ℤ d (pos 0) then 1 else 0)
unfolding ready degree
count-ready v [] d single e = cc
count-ready v ((k, x) ∷ m) d single e = elim (Bool-cases (k == v)) [
  | inl here ↦ ground (arith, count-ready-le v m)
  | inr later ↦ ground (arith, count-ready v m d)
]

module _ {F : Type 0} (h : Heap F) (s : Schema F) where
  abbrev operations : List ℕ
  operations = all_schema_operations h s

  abbrev entries : InDegree
  entries = in_degrees h s

  abbrev keys : List ℕ
  keys = operations_of entries

  -- Edges that are counted more than once, for an operation that stands in two services.
  abbrev extra : ℕ → ℕ
  extra v = edges_into h s v - sum_over (λ u. count v (outgoing_targets h u)) keys

  keys_single : (v : ℕ) → count v keys ≤ 1
  keys_single v = ground (arith, count-in_degrees h s v)

  start-Inv : Inv h keys extra [] [] (entries, ready entries)
  start-Inv = record {
    degrees = λ v k. ground (
      arith,
      degree-in_degrees h s v,
      count-in_degrees h s v,
      sum_over-in_degrees h s (λ u. count v (outgoing_targets h u)),
    );
    absent = λ v k. ground (arith, degree-in_degrees h s v, count-in_degrees h s v);
    once = λ v k. ground (
      arith,
      degree-in_degrees h s v,
      count-in_degrees h s v,
      sum_over-in_degrees h s (λ u. count v (outgoing_targets h u)),
      count-ready v entries (pos (edges_into h s v)),
    );
    known = λ v k. ground (arith, count-ready-le v entries);
  }

  visits :
      (final : List ℕ) × (drain h (length entries) (entries, ready entries) 0 ≡ some (length final))
      × Visits h keys extra keys_single final
  visits =
      drain_total h keys extra keys_single (length entries) entries (ready entries) [] start-Inv tt
        (omega (arith, length-map (λ (x : ℕ × ℤ). x.0) entries))

  length-entries-le : length entries ≤ length operations
  length-entries-le = omega (
    arith,
    length-map (λ (x : ℕ × ℤ). x.0) entries,
    length-eq-sum_over_one keys,
    length-eq-sum_over_one operations,
    sum_over-in_degrees h s (λ _. 1),
  )

  -- A numbering that rises along every call from an operation of the schema to another.
  abbrev pub IsRanked : (ℕ → ℕ) → Type 0
  IsRanked rank =
      (u v : ℕ)
      → 0 < count u operations
      → 0 < count v operations
      → 0 < count v (outgoing_targets h u)
      → rank v < rank u

  -- validateDAG ends for every schema: the fuel of one round for each operation is enough.
  pub validate_dag_total : (errs : List ValidationError) × (validate_dag h (some s) ≡ some errs)
  unfolding validate_dag
  validate_dag_total =
      let (final, e, v) = visits in
      (
        if length final == length entries
            then []
            else one_error (key "operation graph" ∷ []) "R-STR-4",
        rw (e, validate_dag),
      )

  -- If validateDAG reports nothing, the operations have ranks that rise along every call from one to
  -- another, and the rank of each operation is below their number.
  pub validate_dag-IsRanked :
      validate_dag h (some s) ≡ some []
      → (rank : ℕ → ℕ) × IsRanked rank
        × ((u : ℕ) → 0 < count u operations → rank u < length operations)
  unfolding validate_dag
  validate_dag-IsRanked quiet =
      let (final, e, (m, inv, ordered)) = visits in
      let full : length final ≡ length entries = ground arith in
      let every : (v : ℕ) → 0 < count v operations → 0 < count v final = λ v k. omega (
        arith,
        all_visited h keys extra keys_single final inv
            (omega (arith, length-map (λ (x : ℕ × ℤ). x.0) entries)) v
            (ground (arith, count-in_degrees h s v)),
      ) in
      (
        λ v. index v final,
        λ u v ku kv edge.
            index-lt h keys extra keys_single u v final ordered
              (count_visited-le h keys extra keys_single inv)
              (ground (arith, count-in_degrees h s u)) edge (every v kv),
        λ u k. omega (arith, index-lt-length u final (every u k), length-entries-le),
      )

  module _ (single : (v : ℕ) → count v operations ≤ 1) (rank : ℕ → ℕ) (ranked : IsRanked rank) where
    extra_none : (v : ℕ) → extra v ≡ 0
    extra_none v = rw (operations_of-in_degrees_single h s single) (omega arith)

    -- Above an operation that has not been visited there would be another one, and so on.
    visited_from :
        (final : List ℕ) (m : InDegree)
        → Inv h keys extra final [] (m, [])
        → (n v : ℕ) → 0 < count v keys
        → sum_over rank keys < rank v + n
        → 0 < count v final
    visited_from final m inv zero v k high = absurd (omega (arith, le_sum_over rank v keys k))
    visited_from final m inv (suc n) v k high = elim (Bool-cases (count v final == 0)) [
      | inl left ↦
          let (u, ku, edge) =
            sum_over_pos (λ u. if count u final == 0 then count v (outgoing_targets h u) else 0)
              keys (ground (arith, inv.once v k, extra_none v)) in
          absurd (
            ground (
              arith,
              ranked u v (ground (arith, count-in_degrees h s u))
                  (ground (arith, count-in_degrees h s v)),
              visited_from final m inv n u ku,
            ))
      | inr seen ↦ ground arith
    ]

    -- If no operation is listed twice in the schema and the operations have ranks that rise along every
    -- call from one to another, validateDAG reports nothing.
    pub validate_dag_quiet : validate_dag h (some s) ≡ some []
    unfolding validate_dag
    validate_dag_quiet =
        let (final, e, (m, inv, ordered)) = visits in
        let full : length final ≡ length entries = omega (
          arith,
          length-map (λ (x : ℕ × ℤ). x.0) entries,
          length-eq-sum_over final keys (member_once h keys extra keys_single inv),
          sum_over_ones (λ v. count v final) keys
              (λ v k. omega (
                arith,
                count_visited-le h keys extra keys_single inv v,
                visited_from final m inv (suc (sum_over rank keys)) v k (omega arith),
              )),
        ) in
        rw (e, validate_dag) (ground arith)
