-- ===== src/Topology/Graph.antt =====
-- topology/validate.go: the traversals that validation is made of. A traversal with a callback is the
-- list of the calls that it makes.
use xk6_otel_gen.Prelude.{
  ℕ, suc, String, Bool, true, false, ◌||◌, Option, none, some, List, [], ◌∷◌, ◌++◌, str_eq, ◌==◌,
  if◌then◌else◌,
}
use xk6_otel_gen.Topology.Types.{
  Heap, Schema, CallNode, CallNodes, null, call, end, cons, ServiceRef, OperationRef, EdgeRef,
}

-- A loop that appends the results of its rounds.
module _ {ℓ κ} {A : Type ℓ} {B : Type κ} where
  unfoldable pub collect : (A → List B) → List A → List B
  collect f [] = []
  collect f (x ∷ xs) = f x ++ collect f xs

  -- for i, x := range xs
  unfoldable pub collect_from : ℕ → (ℕ → A → List B) → List A → List B
  collect_from i f [] = []
  collect_from i f (x ∷ xs) = f i x ++ collect_from (suc i) f xs

-- v, ok := m[k]
unfoldable pub lookup {ℓ} : {V : Type ℓ} → String → List (String × V) → Option V
lookup k [] = none
lookup k ((j, v) ∷ m) = if str_eq j k then some v else lookup k m

-- m[k] on a map of pointers, nil if the key is missing.
unfoldable pub get {ℓ} : {V : Type ℓ} → String → List (String × Option V) → Option V
unfolding lookup
get k m = elim (lookup k m) [ none ↦ none | some v ↦ v ]

-- p == q on pointers.
abbrev pub eq_ref : Option ℕ → Option ℕ → Bool
eq_ref none none = true
eq_ref none (some q) = false
eq_ref (some p) none = false
eq_ref (some p) (some q) = p == q

-- _, ok := set[p] on a set of pointers that are not nil.
unfoldable pub contains : List ℕ → ℕ → Bool
contains [] p = false
contains (q ∷ qs) p = q == p || contains qs p

abbrev pub in_set : List ℕ → Option ℕ → Bool
in_set set none = false
in_set set (some p) = contains set p

abbrev pub is_some {ℓ} : {A : Type ℓ} → Option A → Bool
is_some none = false
is_some (some a) = true

-- The pointers of a list that are not nil.
abbrev pub of_option {ℓ} : {A : Type ℓ} → Option A → List A
of_option none = []
of_option (some a) = a ∷ []

-- serviceInSchema, on the entries of the map.
unfoldable pub points_to : ServiceRef → List (String × Option ServiceRef) → Bool
points_to svc [] = false
points_to svc ((id, existing) ∷ rest) = eq_ref existing (some svc) || points_to svc rest

module _ {F : Type 0} (h : Heap F) where
  unfoldable pub fallback_edges : EdgeRef → List EdgeRef
  unfolding collect
  fallback_edges e = elim (h.edge e).on_failure [
    | none ↦ []
    | some policy ↦ collect of_option policy.fallback
  ]

  unfoldable mutual
    unfolding fallback_edges

    pub edges_in_calls : CallNodes → List EdgeRef
    edges_in_calls end = []
    edges_in_calls (cons n ns) = edges_in_call n ++ edges_in_calls ns

    pub edges_in_call : CallNode → List EdgeRef
    edges_in_call null = []
    edges_in_call (call none parallel) = edges_in_calls parallel
    edges_in_call (call (some e) parallel) = e ∷ (fallback_edges e ++ edges_in_calls parallel)

  unfoldable pub outgoing_targets : OperationRef → List OperationRef
  unfolding collect edges_in_calls
  outgoing_targets op =
      collect (λ e. of_option (h.edge e).target) (edges_in_calls (h.operation op).calls)

  unfoldable pub service_operations : String × Option ServiceRef → List OperationRef
  unfolding collect
  service_operations (id, none) = []
  service_operations (id, some svc) =
      collect (λ entry. of_option entry.1) (h.service svc).operations

  unfoldable pub all_schema_operations : Schema F → List OperationRef
  unfolding collect service_operations
  all_schema_operations s = collect service_operations s.services

  unfoldable pub outgoing_edges : Schema F → List EdgeRef
  unfolding collect edges_in_calls all_schema_operations
  outgoing_edges s = collect (λ op. edges_in_calls (h.operation op).calls) (all_schema_operations s)
