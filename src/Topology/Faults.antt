-- ===== src/Topology/Faults.antt =====
-- topology/faults.go: the faults of a schema, indexed by what they target. A map of the overlay is a
-- function to the list of its entry, empty where there is none.
use xk6_otel_gen.Prelude.{
  ℕ, ◌≡◌, refl, Option, none, some, List, [], ◌∷◌, ◌++◌, append_assoc, ◌==◌, if◌then◌else◌,
  Bool-cases, sym, inl, inr, append-nil,
}
use xk6_otel_gen.Topology.Enums.{TargetKind}
use xk6_otel_gen.Topology.Types.{Schema, FaultSpec, FaultTarget, ServiceRef, OperationRef, EdgeRef}
use xk6_otel_gen.Topology.Graph.{eq_ref}

pub record FaultOverlay (F : Type 0) : Type 0 where
  pub node_faults : ServiceRef → List (FaultSpec F)
  pub operation_faults : OperationRef → List (FaultSpec F)
  pub edge_faults : EdgeRef → List (FaultSpec F)

-- The pointer that a target of a kind stands for, by the map that takes it.
abbrev pub node_of : TargetKind → FaultTarget → Option ServiceRef
node_of TargetKind.node target = target.service
node_of _ target = none

abbrev pub operation_of : TargetKind → FaultTarget → Option OperationRef
operation_of TargetKind.operation target = target.operation
operation_of _ target = none

abbrev pub edge_of : TargetKind → FaultTarget → Option EdgeRef
edge_of TargetKind.edge target = target.edge
edge_of _ target = none

module _ {F : Type 0} where
  abbrev pub no_faults : FaultOverlay F
  no_faults = record { node_faults = λ p. []; operation_faults = λ p. []; edge_faults = λ p. [] }

  -- m[p] = append(m[p], fault), unless p is nil.
  unfoldable pub append_to :
      Option ℕ → FaultSpec F → (ℕ → List (FaultSpec F)) → ℕ → List (FaultSpec F)
  append_to none fault m p = m p
  append_to (some q) fault m p = if q == p then m p ++ fault ∷ [] else m p

  -- The switch of ApplyFaults on the kind of the target.
  unfoldable pub add_at : TargetKind → FaultSpec F → FaultOverlay F → FaultOverlay F
  add_at TargetKind.node fault overlay = record overlay {
    node_faults = append_to fault.target.service fault overlay.node_faults;
  }
  add_at TargetKind.operation fault overlay = record overlay {
    operation_faults = append_to fault.target.operation fault overlay.operation_faults;
  }
  add_at TargetKind.edge fault overlay = record overlay {
    edge_faults = append_to fault.target.edge fault overlay.edge_faults;
  }
  add_at (TargetKind.other k) fault overlay = overlay

  unfoldable pub add_faults : List (FaultSpec F) → FaultOverlay F → FaultOverlay F
  add_faults [] overlay = overlay
  add_faults (fault ∷ faults) overlay = add_faults faults (add_at fault.target.kind fault overlay)

  -- The faults of a schema, none of nil.
  abbrev pub faults_of : Option (Schema F) → List (FaultSpec F)
  faults_of none = []
  faults_of (some s) = s.faults

  unfoldable pub apply_faults : Option (Schema F) → FaultOverlay F
  apply_faults s = add_faults (faults_of s) no_faults

  -- The faults of a list that target p, in their order.
  abbrev pub targeting : (FaultSpec F → Option ℕ) → ℕ → List (FaultSpec F) → List (FaultSpec F)
  targeting target p [] = []
  targeting target p (fault ∷ faults) =
      (if eq_ref (target fault) (some p) then fault ∷ [] else []) ++ targeting target p faults

  abbrev added : Option ℕ → ℕ → FaultSpec F → List (FaultSpec F)
  added target p fault = if eq_ref target (some p) then fault ∷ [] else []

  append_to-added :
      (target : Option ℕ) (fault : FaultSpec F) (m : ℕ → List (FaultSpec F)) (p : ℕ)
      → append_to target fault m p ≡ m p ++ added target p fault
  unfolding append_to
  append_to-added none fault m p = sym (append-nil (m p))
  append_to-added (some q) fault m p = elim (Bool-cases (q == p)) [
    | inl same ↦ rw same refl
    | inr different ↦ rw different (sym (append-nil (m p)))
  ]

  add_node :
      (k : TargetKind) (fault : FaultSpec F) (overlay : FaultOverlay F) (p : ℕ)
      → (add_at k fault overlay).node_faults p
        ≡ overlay.node_faults p ++ added (node_of k fault.target) p fault
  unfolding add_at
  add_node TargetKind.node fault overlay p =
      append_to-added fault.target.service fault overlay.node_faults p
  add_node TargetKind.operation fault overlay p = sym (append-nil (overlay.node_faults p))
  add_node TargetKind.edge fault overlay p = sym (append-nil (overlay.node_faults p))
  add_node (TargetKind.other k) fault overlay p = sym (append-nil (overlay.node_faults p))

  add_operation :
      (k : TargetKind) (fault : FaultSpec F) (overlay : FaultOverlay F) (p : ℕ)
      → (add_at k fault overlay).operation_faults p
        ≡ overlay.operation_faults p ++ added (operation_of k fault.target) p fault
  unfolding add_at
  add_operation TargetKind.operation fault overlay p =
      append_to-added fault.target.operation fault overlay.operation_faults p
  add_operation TargetKind.node fault overlay p = sym (append-nil (overlay.operation_faults p))
  add_operation TargetKind.edge fault overlay p = sym (append-nil (overlay.operation_faults p))
  add_operation (TargetKind.other k) fault overlay p = sym (append-nil (overlay.operation_faults p))

  add_edge :
      (k : TargetKind) (fault : FaultSpec F) (overlay : FaultOverlay F) (p : ℕ)
      → (add_at k fault overlay).edge_faults p
        ≡ overlay.edge_faults p ++ added (edge_of k fault.target) p fault
  unfolding add_at
  add_edge TargetKind.edge fault overlay p =
      append_to-added fault.target.edge fault overlay.edge_faults p
  add_edge TargetKind.node fault overlay p = sym (append-nil (overlay.edge_faults p))
  add_edge TargetKind.operation fault overlay p = sym (append-nil (overlay.edge_faults p))
  add_edge (TargetKind.other k) fault overlay p = sym (append-nil (overlay.edge_faults p))

  -- A map of the overlay to which each fault adds the faults that a reading of its target gives.
  module _ (entry : FaultOverlay F → ℕ → List (FaultSpec F))
      (target : TargetKind → FaultTarget → Option ℕ)
      (adds : (k : TargetKind) (fault : FaultSpec F) (overlay : FaultOverlay F) (p : ℕ)
        → entry (add_at k fault overlay) p
          ≡ entry overlay p ++ added (target k fault.target) p fault) where
    add_all :
        (faults : List (FaultSpec F)) (overlay : FaultOverlay F) (p : ℕ)
        → entry (add_faults faults overlay) p
          ≡ entry overlay p ++ targeting (λ f. target f.target.kind f.target) p faults
    unfolding add_faults
    add_all [] overlay p = sym (append-nil (entry overlay p))
    add_all (fault ∷ faults) overlay p =
        rw
          (
            add_all faults (add_at fault.target.kind fault overlay) p,
            adds fault.target.kind fault overlay p,
            append_assoc (entry overlay p) (added (target fault.target.kind fault.target) p fault)
                (targeting (λ f. target f.target.kind f.target) p faults),
          )
          refl

  -- The entry of each pointer in an overlay is the list of the schema's faults that target it, in the
  -- schema's order, and empty for a nil schema: a fault is in the map of its kind, under the pointer of that kind, and nowhere else.
  pub apply_faults_lem :
      (s : Option (Schema F)) (p : ℕ)
      → ((apply_faults s).node_faults p
          ≡ targeting (λ f. node_of f.target.kind f.target) p (faults_of s))
        × (((apply_faults s).operation_faults p
              ≡ targeting (λ f. operation_of f.target.kind f.target) p (faults_of s))
            × ((apply_faults s).edge_faults p
                ≡ targeting (λ f. edge_of f.target.kind f.target) p (faults_of s)))
  unfolding apply_faults
  apply_faults_lem s p = (
    add_all (λ o. o.node_faults) node_of add_node (faults_of s) no_faults p,
    (
      add_all (λ o. o.operation_faults) operation_of add_operation (faults_of s) no_faults p,
      add_all (λ o. o.edge_faults) edge_of add_edge (faults_of s) no_faults p,
    ),
  )
