-- ===== src/Topology/Validate/Quiet.antt =====
-- What validation that reports nothing says of each operation of the schema.
use xk6_otel_gen.Prelude.{
  ℕ, ◌<◌, String, ◌≡◌, refl, sym, ◌∙◌, true, Option, none, some, List, [], ◌∷◌, count, count-append,
  append-eq-nil, arith, ◌==◌, ==→eq, Bool-cases, inl, inr,
}
use xk6_otel_gen.Topology.Types.{Heap, Schema, CallNodes, ServiceRef, OperationRef}
use xk6_otel_gen.Topology.Errors.{FieldPath, ValidationError}
use xk6_otel_gen.Topology.Graph.{
  collect, of_option, eq_ref, contains, service_operations, all_schema_operations,
}
use xk6_otel_gen.Topology.Validate.Structure.{
  for_each_calls, check_service_calls, check_operation_calls, validate_back_pointers,
  check_service_back_pointers, check_back_pointers, calls_path, validate_no_orphan_references,
  no_orphan_calls, validate_call_node_variants, call_variants,
}

pub contains-count : (ops : List ℕ) (p : ℕ) → contains ops p ≡ true → 0 < count p ops
unfolding contains
contains-count [] p h = cc
contains-count (q ∷ qs) p h = ground (arith, contains-count qs p)

eq_ref-eq : (p : Option ℕ) (q : ℕ) → eq_ref p (some q) ≡ true → p ≡ some q
eq_ref-eq none q h = cc
eq_ref-eq (some p) q h = ground arith

collect_entries {ℓ} :
    {E : Type ℓ} (f : String × Option ℕ → List E) (op : ℕ) (entries : List (String × Option ℕ))
    → collect f entries ≡ []
    → 0 < count op (collect (λ entry. of_option entry.1) entries)
    → (name : String) × (f (name, some op) ≡ [])
unfolding collect
collect_entries f op [] quiet m = elim m [ ]
collect_entries f op ((name, none) ∷ rest) quiet m =
    collect_entries f op rest (append-eq-nil (f (name, none)) (collect f rest) quiet).1 m
collect_entries f op ((name, some p) ∷ rest) quiet m = elim (Bool-cases (p == op)) [
  | inl here ↦
      (name, rw (← ==→eq p op here) (append-eq-nil (f (name, some p)) (collect f rest) quiet).0)
  | inr later ↦
      collect_entries f op rest (append-eq-nil (f (name, some p)) (collect f rest) quiet).1
        (ground arith)
]

module _ {F : Type 0} (h : Heap F) (op : ℕ) where
  -- A quiet loop over the operations of all services is quiet at `op`.
  collect_services {ℓ} :
      {E : Type ℓ} (g : String × Option ServiceRef → List E)
      (f : String → ServiceRef → String × Option OperationRef → List E)
      → ((id : String) (svc : ServiceRef)
          → g (id, some svc) ≡ collect (f id svc) (h.service svc).operations)
      → (services : List (String × Option ServiceRef)) → collect g services ≡ []
      → 0 < count op (collect (service_operations h) services)
      → (id : String) × (svc : ServiceRef) × (name : String) × (f id svc (name, some op) ≡ [])
  unfolding collect service_operations
  collect_services g f at_service [] quiet m = elim m [ ]
  collect_services g f at_service ((id, none) ∷ rest) quiet m =
      collect_services g f at_service rest (append-eq-nil (g (id, none)) (collect g rest) quiet).1 m
  collect_services g f at_service ((id, some svc) ∷ rest) quiet m =
      let (here, later) = append-eq-nil (g (id, some svc)) (collect g rest) quiet in
      elim (Bool-cases (count op (service_operations h (id, some svc)) == 0)) [
        | inl absent ↦ collect_services g f at_service rest later (
            ground (
              arith,
              count-append op (service_operations h (id, some svc))
                  (collect (service_operations h) rest),
            ))
        | inr present ↦
            let (name, e) =
              collect_entries (f id svc) op (h.service svc).operations
                (sym (at_service id svc) ∙ here) (ground arith) in
            (id, svc, name, e)
      ]

  points_back :
      (id : String) (svc : ServiceRef) (name : String)
      → check_back_pointers h id svc (name, some op) ≡ []
      → (h.operation op).service ≡ some svc
  unfolding check_back_pointers
  points_back id svc name e = elim (Bool-cases (eq_ref (h.operation op).service (some svc))) [
    | inl yes_ ↦ eq_ref-eq (h.operation op).service svc yes_
    | inr no_ ↦ absurd (cc (rw no_ at e))
  ]

  module _ (s : Schema F) (member : 0 < count op (all_schema_operations h s)) where
    for_each_calls_quiet :
        (check : CallNodes → FieldPath → List ValidationError)
        → for_each_calls h check s ≡ []
        → (path : FieldPath) × (check (h.operation op).calls path ≡ [])
    unfolding for_each_calls all_schema_operations
    for_each_calls_quiet check quiet =
        let (id, svc, name, e) =
          collect_services (check_service_calls h check)
            (λ id svc. check_operation_calls h check id)
            (λ id svc. unfold check_service_calls in refl) s.services quiet member in
        (calls_path id name, unfold check_operation_calls in e)

    pub service_quiet :
        validate_back_pointers h (some s) ≡ []
        → (svc : ServiceRef) × ((h.operation op).service ≡ some svc)
    unfolding validate_back_pointers all_schema_operations
    service_quiet quiet =
        let (id, svc, name, e) =
          collect_services (check_service_back_pointers h) (check_back_pointers h)
            (λ id svc. unfold check_service_back_pointers in refl) s.services quiet member in
        (svc, points_back id svc name e)

    pub no_orphans_quiet :
        validate_no_orphan_references h (some s) ≡ []
        → (path : FieldPath) × (no_orphan_calls h
              (all_schema_operations h s)
              path
              0
              (h.operation op).calls
            ≡ [])
    unfolding validate_no_orphan_references
    no_orphans_quiet quiet =
        for_each_calls_quiet
          (λ calls path. no_orphan_calls h (all_schema_operations h s) path 0 calls) quiet

    pub variants_quiet :
        validate_call_node_variants h (some s) ≡ []
        → (path : FieldPath) × (call_variants h path 0 (h.operation op).calls ≡ [])
    unfolding validate_call_node_variants
    variants_quiet quiet = for_each_calls_quiet (λ calls path. call_variants h path 0 calls) quiet
