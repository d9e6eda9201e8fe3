-- ===== src/Journey/Plan.antt =====
-- journey/plan.go: a journey as a tree of operation invocations. The map of the operations on the
-- build path is shared by the calls and written by them, so each function returns it too. Fuel bounds
-- the nesting of operations.
mod Calls
pub mod Validated
pub mod Parsed
use xk6_otel_gen.Prelude.{
  ℕ, zero, suc, String, Bool, true, false, Option, none, some, List, [], ◌∷◌, ◌++◌, str_eq, ◌==◌,
  if◌then◌else◌,
}
use xk6_otel_gen.Topology.Types.{
  Heap, Schema, Service, Operation, Edge, Journey, CallNode, CallNodes, Step, Steps, ServiceRef,
  OperationRef, EdgeRef, LogEventSpec, MetricSpec, MetricStateUpdateSpec, ProfileSpec,
}
use xk6_otel_gen.Topology.Graph.{lookup}
use xk6_otel_gen.Topology.Validate.Structure.{has_calls, has_steps}

-- The kinds of a PlanError; `out_of_fuel` is the model's own.
pub data ErrorKind : Type 0 where
  unknown_journey empty_journey nil_step nil_operation cycle nil_call nil_edge nil_edge_to :
      ErrorKind
  out_of_fuel : ErrorKind

-- An element of an error's path.
pub data Label : Type 0 where
  name : String → Label
  step call parallel : ℕ → Label
  operation : OperationRef → Label

pub record PlanError : Type 0 where
  pub kind : ErrorKind
  pub path : List Label

pub data Result {ℓ} (A : Type ℓ) : Type ℓ where
  ok : A → Result A
  err : PlanError → Result A

abbrev pub fail {ℓ} : {A : Type ℓ} → ErrorKind → List Label → Result A
fail kind path = err (record { kind = kind; path = path })

-- The fields of a node that hold no nodes.
pub record NodeInfo (F : Type 0) : Type 0 where
  pub service : Option ServiceRef
  pub operation : String
  pub edge : Option EdgeRef
  pub log_events : List LogEventSpec
  pub metrics : List (MetricSpec F)
  pub state_updates : List (MetricStateUpdateSpec F)
  pub profile : Option (ProfileSpec F)

mutual
  pub data Node (F : Type 0) : Type 0 where
    null : Node F
    node : (info : NodeInfo F) (parallel children : Nodes F) → Node F

  pub data Nodes (F : Type 0) : Type 0 where
    end : Nodes F
    cons : Node F → Nodes F → Nodes F

abbrev pub virtual_info : {F : Type 0} → NodeInfo F
virtual_info = record {
  service = none;
  operation = "";
  edge = none;
  log_events = [];
  metrics = [];
  state_updates = [];
  profile = none;
}

pub record Plan (F : Type 0) : Type 0 where
  pub journey_name : String
  pub root : Node F

-- map[*Operation]bool, read as false where there is no entry.
abbrev pub Visiting : Type 0
Visiting = OperationRef → Bool

abbrev pub nothing_visited : Visiting
nothing_visited op = false

abbrev pub mark : OperationRef → Bool → Visiting → Visiting
mark op b visiting = λ p. if p == op then b else visiting p

-- A step that may fail and that leaves the map of its caller changed.
abbrev pub Build {ℓ} : Type ℓ → Type ℓ
Build A = Visiting → Result A × Visiting

module _ {ℓ κ} {A : Type ℓ} {B : Type κ} where
  abbrev pub after : Result A × Visiting → (A → Build B) → Result B × Visiting
  after (ok a, visiting) f = f a visiting
  after (err e, visiting) f = (err e, visiting)

  infixl 5 ◌>>=◌
  abbrev pub ◌>>=◌ : Build A → (A → Build B) → Build B
  m >>= f = λ visiting. after (m visiting) f

module _ {ℓ} {A : Type ℓ} where
  abbrev pub return : A → Build A
  return a visiting = (ok a, visiting)

  abbrev pub throw : ErrorKind → List Label → Build A
  throw kind path visiting = (fail kind path, visiting)

  -- A call on cloneVisitSet(visiting): what it writes is dropped.
  abbrev pub on_clone : Build A → Build A
  on_clone m visiting = ((m visiting).0, visiting)

module _ {F : Type 0} (h : Heap F) where
  -- The loops over calls, given buildOperationNode.
  module _ (build_operation : OperationRef → Option EdgeRef → List Label → Build (Node F)) where
    unfoldable pub build_edge : EdgeRef → List Label → Build (Node F)
    build_edge e path = elim (h.edge e).target [
      | none ↦ throw nil_edge_to path
      | some target ↦ build_operation target (some e) (path ++ Label.operation target ∷ [])
    ]

    unfoldable mutual
      unfolding build_edge

      pub build_call_node : CallNode → List Label → Build (Node F)
      build_call_node CallNode.null path = throw nil_call path
      build_call_node (CallNode.call edge (CallNodes.cons n ns)) path = do
        group ← build_parallel_calls 0 (CallNodes.cons n ns) path
        return (Node.node virtual_info group Nodes.end)
      build_call_node (CallNode.call none CallNodes.end) path = throw nil_edge path
      build_call_node (CallNode.call (some e) CallNodes.end) path = build_edge e path

      pub build_parallel_calls : ℕ → CallNodes → List Label → Build (Nodes F)
      build_parallel_calls i CallNodes.end path = return Nodes.end
      build_parallel_calls i (CallNodes.cons n ns) path = do
        child ← on_clone (build_call_node n (path ++ Label.parallel i ∷ []))
        rest ← build_parallel_calls (suc i) ns path
        return (Nodes.cons child rest)

    unfoldable pub build_calls : ℕ → CallNodes → List Label → Build (Nodes F)
    unfolding build_call_node
    build_calls i CallNodes.end path = return Nodes.end
    build_calls i (CallNodes.cons n ns) path = do
      child ← build_call_node n (path ++ Label.call i ∷ [])
      rest ← build_calls (suc i) ns path
      return (Nodes.cons child rest)

  -- visiting[op] = true; defer delete(visiting, op)
  abbrev pub guarded {ℓ} : {A : Type ℓ} → OperationRef → Build A → Build A
  guarded op m visiting =
      let (result, visiting') = m (mark op true visiting) in (result, mark op false visiting')

  unfoldable pub operation_info : OperationRef → Option EdgeRef → NodeInfo F
  operation_info op edge =
      let o = h.operation op in
      record {
        service = o.service;
        operation = o.name;
        edge = edge;
        log_events = o.log_events;
        metrics = o.metrics;
        state_updates = o.state_updates;
        profile = o.profile;
      }

  unfoldable pub build_operation_node :
      ℕ → OperationRef → Option EdgeRef → List Label → Build (Node F)
  build_operation_node zero op edge path visiting = throw out_of_fuel path visiting
  build_operation_node (suc fuel) op edge path visiting = elim (h.operation op).service [
    | none ↦ throw nil_operation path visiting
    | some svc ↦ elim (visiting op) [
      | true ↦ throw cycle path visiting
      | false ↦
          guarded op
            (do
              children ← build_calls (build_operation_node fuel) 0 (h.operation op).calls path
              return (Node.node (operation_info op edge) Nodes.end children))
            visiting
    ]
  ]

  module _ (fuel : ℕ) where
    unfoldable mutual
      pub build_step_node : Step → Option EdgeRef → List Label → Build (Node F)
      build_step_node Step.null edge path = throw nil_step path
      build_step_node (Step.step op (Steps.cons n ns)) edge path = do
        group ← build_parallel_steps 0 (Steps.cons n ns) edge path
        return (Node.node virtual_info group Nodes.end)
      build_step_node (Step.step none Steps.end) edge path = throw nil_operation path
      build_step_node (Step.step (some op) Steps.end) edge path =
          build_operation_node fuel op edge (path ++ Label.operation op ∷ [])

      pub build_parallel_steps : ℕ → Steps → Option EdgeRef → List Label → Build (Nodes F)
      build_parallel_steps i Steps.end edge path = return Nodes.end
      build_parallel_steps i (Steps.cons n ns) edge path = do
        child ← on_clone (build_step_node n edge (path ++ Label.parallel i ∷ []))
        rest ← build_parallel_steps (suc i) ns edge path
        return (Nodes.cons child rest)

    -- Each step of a journey starts with a map of its own.
    unfoldable pub build_steps : ℕ → Steps → String → Result (Nodes F)
    build_steps i Steps.end journey = ok Nodes.end
    build_steps i (Steps.cons n ns) journey =
        let first =
          (build_step_node n none (Label.name journey ∷ Label.step i ∷ []) nothing_visited).0 in
        let rest = build_steps (suc i) ns journey in
        elim first [
          | err e ↦ err e
          | ok child ↦ elim rest [ err e ↦ err e | ok children ↦ ok (Nodes.cons child children) ]
        ]

    root_of : Nodes F → Node F
    root_of (Nodes.cons child Nodes.end) = child
    root_of children = Node.node virtual_info Nodes.end children

    plan_of : String → Option (Journey F) → Result (Plan F)
    plan_of journey none = fail empty_journey (Label.name journey ∷ [])
    plan_of journey (some j) =
        if has_steps j.steps
        then elim (build_steps 0 j.steps journey) [
          | err e ↦ err e
          | ok children ↦ ok (record { journey_name = journey; root = root_of children })
        ]
        else fail empty_journey (Label.name journey ∷ [])

    unfoldable pub build_plan : Schema F → String → Result (Plan F)
    unfolding plan_of root_of
    build_plan s journey = elim (lookup journey s.journeys) [
      | none ↦ fail unknown_journey (Label.name journey ∷ [])
      | some found ↦ plan_of journey found
    ]
