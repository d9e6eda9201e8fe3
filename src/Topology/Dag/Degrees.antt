-- ===== src/Topology/Dag/Degrees.antt =====
-- The map from operations to degrees: reading after writing, its keys, and what the two counting
-- loops leave in it.
use xk6_otel_gen.Prelude.{
  ℕ, ◌+◌, ◌≤◌, ◌≡◌, refl, sym, ap, ◌∙◌, Bool, Option, none, some, List, [], ◌∷◌, ◌++◌, count,
  count-append, append_assoc, append-nil, arith, ◌==◌, if◌then◌else◌, sum_over, Option-cases,
  Bool-cases, inl, inr,
}
use xk6_otel_gen.Prelude.Int.{ℤ, pos, ◌+ℤ◌}
use xk6_otel_gen.Topology.Types.{Heap, Schema, EdgeRef}
use xk6_otel_gen.Topology.Graph.{
  is_some, of_option, collect, outgoing_edges, outgoing_targets, edges_in_calls,
  all_schema_operations,
}
use xk6_otel_gen.Topology.Dag.{
  InDegree, degree, assign, operations_of, zero_degrees, increment, count_edges, in_degrees,
}

pub degree-assign :
    (v op : ℕ) (d : ℤ) (m : InDegree)
    → degree v (assign op d m) ≡ (if op == v then some d else degree v m)
unfolding degree assign
degree-assign v op d [] = refl
degree-assign v op d ((k, e) ∷ m) = ground (arith, degree-assign v op d m)

count-assign :
    (v op : ℕ) (d : ℤ) (m : InDegree)
    → count v (operations_of (assign op d m))
      ≡ count v (operations_of m)
        + (if op == v then (if is_some (degree op m) then 0 else 1) else 0)
unfolding degree assign
count-assign v op d [] = ground arith
count-assign v op d ((k, e) ∷ m) = ground (arith, count-assign v op d m)

-- A write to a key that is there keeps the keys.
operations_of-assign :
    (op : ℕ) (d : ℤ) (m : InDegree)
    → is_some (degree op m) ≡ Bool.true
    → operations_of (assign op d m) ≡ operations_of m
unfolding degree assign
operations_of-assign op d [] h = cc
operations_of-assign op d ((k, e) ∷ m) h = ground (arith, operations_of-assign op d m)

sum_over-assign :
    (f : ℕ → ℕ) (op : ℕ) (d : ℤ) (m : InDegree)
    → sum_over f (operations_of (assign op d m)) ≤ sum_over f (operations_of m) + f op
unfolding assign sum_over
sum_over-assign f op d [] = omega arith
sum_over-assign f op d ((k, e) ∷ m) = ground (arith, sum_over-assign f op d m)

-- Every key stands once in the list of entries.
abbrev pub IsMap : InDegree → Type 0
IsMap m = (v : ℕ) → count v (operations_of m) ≡ (if is_some (degree v m) then 1 else 0)

IsMap-assign : (op : ℕ) (d : ℤ) (m : InDegree) → IsMap m → IsMap (assign op d m)
IsMap-assign op d m h v = ground (arith, h v, h op, count-assign v op d m, degree-assign v op d m)

IsMap-zero_degrees : (m : InDegree) (ops : List ℕ) → IsMap m → IsMap (zero_degrees m ops)
unfolding zero_degrees
IsMap-zero_degrees m [] h = h
IsMap-zero_degrees m (op ∷ ops) h =
    IsMap-zero_degrees (assign op (pos 0) m) ops (IsMap-assign op (pos 0) m h)

degree-zero_degrees :
    (v : ℕ) (m : InDegree) (ops : List ℕ)
    → degree v (zero_degrees m ops) ≡ (if count v ops == 0 then degree v m else some (pos 0))
unfolding zero_degrees
degree-zero_degrees v m [] = refl
degree-zero_degrees v m (op ∷ ops) =
    ground (arith, degree-zero_degrees v (assign op (pos 0) m) ops, degree-assign v op (pos 0) m)

sum_over-zero_degrees :
    (f : ℕ → ℕ) (m : InDegree) (ops : List ℕ)
    → sum_over f (operations_of (zero_degrees m ops))
      ≤ sum_over f (operations_of m) + sum_over f ops
unfolding zero_degrees sum_over
sum_over-zero_degrees f m [] = omega arith
sum_over-zero_degrees f m (op ∷ ops) =
    omega (arith, sum_over-zero_degrees f (assign op (pos 0) m) ops, sum_over-assign f op (pos 0) m)

operations_of-assign_new :
    (op : ℕ) (d : ℤ) (m : InDegree)
    → count op (operations_of m) ≡ 0
    → operations_of (assign op d m) ≡ operations_of m ++ op ∷ []
unfolding assign
operations_of-assign_new op d [] h = refl
operations_of-assign_new op d ((k, e) ∷ m) h = ground (arith, operations_of-assign_new op d m)

-- Where no operation comes twice, the keys are the operations.
operations_of-zero_degrees :
    (m : InDegree) (ops : List ℕ)
    → ((v : ℕ) → count v (operations_of m) + count v ops ≤ 1)
    → operations_of (zero_degrees m ops) ≡ operations_of m ++ ops
unfolding zero_degrees
operations_of-zero_degrees m [] h = sym (append-nil (operations_of m))
operations_of-zero_degrees m (op ∷ ops) h =
    let new : operations_of (assign op (pos 0) m) ≡ operations_of m ++ op ∷ [] =
      operations_of-assign_new op (pos 0) m (ground (arith, h op)) in
    operations_of-zero_degrees (assign op (pos 0) m) ops
      (λ v. rw new (ground (arith, h v, count-append v (operations_of m) (op ∷ []))))
    ∙ ap (λ l. l ++ ops) new
    ∙ append_assoc (operations_of m) (op ∷ []) ops

pub collect-append {ℓ κ} :
    {A : Type ℓ} {B : Type κ} (f : A → List B) (xs ys : List A)
    → collect f (xs ++ ys) ≡ collect f xs ++ collect f ys
unfolding collect
collect-append f [] ys = refl
collect-append f (x ∷ xs) ys = simp (collect-append f xs ys, append_assoc)

operations_of-increment :
    (t : Option ℕ) (m : InDegree) → operations_of (increment t m) ≡ operations_of m
unfolding increment
operations_of-increment none m = refl
operations_of-increment (some op) m = elim (Option-cases (degree op m)) [
  | inl missing ↦ rw (missing, increment)
  | inr (d, found) ↦ rw (found, increment) (operations_of-assign op (d +ℤ pos 1) m (rw found refl))
]

degree-increment :
    (v : ℕ) (t : Option ℕ) (m : InDegree) (n : ℕ)
    → degree v m ≡ some (pos n)
    → degree v (increment t m) ≡ some (pos (n + count v (of_option t)))
unfolding increment ◌+ℤ◌
degree-increment v none m n d = ground arith
degree-increment v (some op) m n d = elim (Option-cases (degree op m)) [
  | inl missing ↦ ground (arith, degree-assign v op (pos 0) m)
  | inr (e, found) ↦ ground (arith, degree-assign v op (e +ℤ pos 1) m)
]

degree-increment-none :
    (v : ℕ) (t : Option ℕ) (m : InDegree) → degree v m ≡ none → degree v (increment t m) ≡ none
unfolding increment
degree-increment-none v none m d = d
degree-increment-none v (some op) m d = elim (Option-cases (degree op m)) [
  | inl missing ↦ ground arith
  | inr (e, found) ↦ ground (arith, degree-assign v op (e +ℤ pos 1) m)
]

module _ {F : Type 0} (h : Heap F) where
  -- The targets of a list of edges, nil left out.
  abbrev pub arrivals : List EdgeRef → List ℕ
  arrivals es = collect (λ e. of_option (h.edge e).target) es

  operations_of-count_edges :
      (m : InDegree) (es : List EdgeRef) → operations_of (count_edges h m es) ≡ operations_of m
  unfolding count_edges
  operations_of-count_edges m [] = refl
  operations_of-count_edges m (e ∷ es) =
      operations_of-count_edges (increment (h.edge e).target m) es
      ∙ operations_of-increment (h.edge e).target m

  degree-count_edges :
      (v : ℕ) (m : InDegree) (es : List EdgeRef) (n : ℕ)
      → degree v m ≡ some (pos n)
      → degree v (count_edges h m es) ≡ some (pos (n + count v (arrivals es)))
  unfolding count_edges collect
  degree-count_edges v m [] n d = ground arith
  degree-count_edges v m (e ∷ es) n d = ground (
    arith,
    count-append v (of_option (h.edge e).target) (arrivals es),
    degree-increment v (h.edge e).target m n d,
    degree-count_edges v (increment (h.edge e).target m) es
        (n + count v (of_option (h.edge e).target)),
  )

  degree-count_edges-none :
      (v : ℕ) (m : InDegree) (es : List EdgeRef)
      → degree v m ≡ none
      → degree v (count_edges h m es) ≡ none
  unfolding count_edges
  degree-count_edges-none v m [] d = d
  degree-count_edges-none v m (e ∷ es) d =
      degree-count_edges-none v (increment (h.edge e).target m) es
        (degree-increment-none v (h.edge e).target m d)

  -- The edges of all operations arrive where the targets of the operations say.
  count-arrivals :
      (v : ℕ) (ops : List ℕ)
      → count v (arrivals (collect (λ op. edges_in_calls h (h.operation op).calls) ops))
        ≡ sum_over (λ u. count v (outgoing_targets h u)) ops
  unfolding collect sum_over outgoing_targets
  count-arrivals v [] = refl
  count-arrivals v (op ∷ ops) = rw collect-append (
      ground (arith, count-append v (outgoing_targets h op) (arrivals later), count-arrivals v ops))
    where
      later : List EdgeRef
      later = collect (λ u. edges_in_calls h (h.operation u).calls) ops

module _ {F : Type 0} (h : Heap F) (s : Schema F) where
  abbrev seeds : InDegree
  seeds = zero_degrees [] (all_schema_operations h s)

  -- How many edges of the schema lead to `v`.
  abbrev pub edges_into : ℕ → ℕ
  edges_into v = sum_over (λ u. count v (outgoing_targets h u)) (all_schema_operations h s)

  operations_of-in_degrees : operations_of (in_degrees h s) ≡ operations_of seeds
  unfolding in_degrees
  operations_of-in_degrees = operations_of-count_edges h seeds (outgoing_edges h s)

  pub degree-in_degrees :
      (v : ℕ)
      → degree v (in_degrees h s)
        ≡ (if count v (all_schema_operations h s) == 0 then none else some (pos (edges_into v)))
  unfolding in_degrees outgoing_edges
  degree-in_degrees v = elim (Bool-cases (count v (all_schema_operations h s) == 0)) [
    | inl outside ↦ rw outside (
        degree-count_edges-none h v seeds (outgoing_edges h s)
          (degree-zero_degrees v [] (all_schema_operations h s) ∙ rw outside (nothing v)))
    | inr inside ↦ rw inside (
        ground (
          arith,
          degree-count_edges h v seeds (outgoing_edges h s) 0,
          degree-zero_degrees v [] (all_schema_operations h s),
          count-arrivals h v (all_schema_operations h s),
        ))
  ]
    where
      nothing : (w : ℕ) → degree w [] ≡ none
      nothing w = unfold degree in refl

  pub count-in_degrees :
      (v : ℕ)
      → count v (operations_of (in_degrees h s))
        ≡ (if count v (all_schema_operations h s) == 0 then 0 else 1)
  unfolding degree
  count-in_degrees v = rw operations_of-in_degrees (
      ground (
        arith,
        IsMap-zero_degrees [] (all_schema_operations h s) (λ w. refl) v,
        degree-zero_degrees v [] (all_schema_operations h s),
      ))

  pub sum_over-in_degrees :
      (f : ℕ → ℕ)
      → sum_over f (operations_of (in_degrees h s)) ≤ sum_over f (all_schema_operations h s)
  unfolding sum_over
  sum_over-in_degrees f =
      rw operations_of-in_degrees
        (omega (arith, sum_over-zero_degrees f [] (all_schema_operations h s)))

  pub operations_of-in_degrees_single :
      ((v : ℕ) → count v (all_schema_operations h s) ≤ 1)
      → operations_of (in_degrees h s) ≡ all_schema_operations h s
  operations_of-in_degrees_single single =
      operations_of-in_degrees
      ∙ operations_of-zero_degrees [] (all_schema_operations h s) (λ v. omega (arith, single v))
