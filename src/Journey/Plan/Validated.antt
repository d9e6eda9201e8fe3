-- ===== src/Journey/Plan/Validated.antt =====
-- Plans of validated topologies: building them fails for no journey.
use xk6_otel_gen.Prelude.{
  ℕ, zero, suc, ◌≤◌, ◌<◌, String, ◌≡◌, refl, fun_ext, ap, Bool, true, false, Option, none, some,
  List, [], ◌∷◌, ◌++◌, count, append-eq-nil, arith, length,
}
use xk6_otel_gen.Topology.Float.{Float64}
use xk6_otel_gen.Topology.Validate.Whole.{validate, validate_parts, journey_quiet}
use xk6_otel_gen.Topology.Types.{Heap, Schema, Journey, Step, Steps, EdgeRef}
use xk6_otel_gen.Topology.Errors.{FieldPath, ◌/ᵢ◌}
use xk6_otel_gen.Topology.Graph.{outgoing_targets, lookup, all_schema_operations}
use xk6_otel_gen.Topology.Dag.{validate_dag}
use xk6_otel_gen.Topology.Dag.Acyclic.{IsRanked, validate_dag-IsRanked}
use xk6_otel_gen.Topology.Validate.Structure.{
  steps_reachable, step_reachable, has_steps, validate_back_pointers, validate_no_orphan_references,
  validate_call_node_variants, validate_journey_reachability,
}
use xk6_otel_gen.Topology.Validate.Quiet.{
  contains-count, service_quiet, no_orphans_quiet, variants_quiet,
}
use xk6_otel_gen.Journey.Plan.{
  Node, Nodes, Label, Plan, ok, Visiting, mark, nothing_visited, ◌>>=◌, return, on_clone,
  virtual_info, operation_info, build_calls, build_operation_node, build_step_node,
  build_parallel_steps, build_steps, build_plan, plan_of, root_of,
}
use xk6_otel_gen.Journey.Plan.Calls.{Succeeds, bind-Succeeds, clone-Succeeds, build_calls-Succeeds}

mark_unmark :
    (op : ℕ) (visiting : Visiting)
    → visiting op ≡ false
    → mark op false (mark op true visiting) ≡ visiting
mark_unmark op visiting free = fun_ext λ p. ground arith

-- One round of buildOperationNode whose calls can be built.
build_operation_round :
    {F : Type 0} (h : Heap F) (fuel op : ℕ) (edge : Option EdgeRef) (path : List Label)
    (visiting : Visiting) (svc : ℕ) (children : Nodes F)
    → (h.operation op).service ≡ some svc
    → visiting op ≡ false
    → build_calls h
        (build_operation_node h fuel)
        0
        (h.operation op).calls
        path
        (mark op true visiting)
      ≡ (ok children, mark op true visiting)
    → build_operation_node h (suc fuel) op edge path visiting
      ≡ (ok (Node.node (operation_info h op edge) Nodes.end children), visiting)
unfolding build_operation_node
build_operation_round h fuel op edge path visiting svc children served free e =
    rw (served, build_operation_node)
      (rw (free, build_operation_node)
        (rw (e, build_operation_node)
          (ap (λ m. (ok (Node.node (operation_info h op edge) Nodes.end children), m))
            (mark_unmark op visiting free))))

-- The checks that the building of plans relies on report nothing.
pub record IsSound {F : Type 0} (h : Heap F) (s : Schema F) : Type 0 where
  pub back_pointers : validate_back_pointers h (some s) ≡ []
  pub no_orphans : validate_no_orphan_references h (some s) ≡ []
  pub acyclic : validate_dag h (some s) ≡ some []
  pub reachable : validate_journey_reachability h (some s) ≡ []
  pub variants : validate_call_node_variants h (some s) ≡ []

module _ {F : Type 0} (h : Heap F) (s : Schema F) (sound : IsSound h s) (rank : ℕ → ℕ)
    (ranked : IsRanked h s rank) where
  abbrev ops : List ℕ
  ops = all_schema_operations h s

  -- An operation off the path, whose callers on the path have higher ranks, is built with enough fuel
  -- for its rank, and the map is left as it was.
  build_operation-Succeeds :
      (fuel op : ℕ) (edge : Option EdgeRef) (path : List Label) (visiting : Visiting)
      → 0 < count op ops
      → rank op < fuel
      → ((x : ℕ) → visiting x ≡ true → rank op < rank x)
      → Succeeds visiting (build_operation_node h fuel op edge path)
  unfolding outgoing_targets
  build_operation-Succeeds zero op edge path visiting member enough above = elim enough [ ]
  build_operation-Succeeds (suc fuel) op edge path visiting member enough above =
      let (svc, served) = service_quiet h op s member sound.back_pointers in
      let (fp, orphans) = no_orphans_quiet h op s member sound.no_orphans in
      let (fp', variants) = variants_quiet h op s member sound.variants in
      let free : visiting op ≡ false = off_path (visiting op) (above op) in
      let (children, e) =
        build_calls-Succeeds h ops rank (rank op) (mark op true visiting)
          (build_operation_node h fuel)
          (λ v edge path member' below.
            build_operation-Succeeds fuel v edge path (mark op true visiting) member' (omega arith)
              (on_path v below))
          (h.operation op).calls fp fp' 0 0 0 path orphans variants
          (λ v member' edge. ranked op v member member' edge) in
      (
        Node.node (operation_info h op edge) Nodes.end children,
        build_operation_round h fuel op edge path visiting svc children served free e,
      )
    where
      off_path : (b : Bool) → (b ≡ true → rank op < rank op) → b ≡ false
      off_path true no_ = absurd (omega (arith, no_ refl))
      off_path false no_ = refl

      on_path :
          (v : ℕ) → rank v < rank op → (x : ℕ) → mark op true visiting x ≡ true → rank v < rank x
      on_path v below x marked = ground (arith, above x)

  module _ (fuel : ℕ) (enough : (op : ℕ) → 0 < count op ops → rank op < fuel) where
    mutual
      unfolding build_step_node steps_reachable

      build_step_node-Succeeds :
          (n : Step) (fp : FieldPath) (edge : Option EdgeRef) (path : List Label)
          → step_reachable h ops fp n ≡ []
          → Succeeds nothing_visited (build_step_node h fuel n edge path)
      build_step_node-Succeeds Step.null fp edge path quiet = absurd (cc)
      build_step_node-Succeeds (Step.step none Steps.end) fp edge path quiet = absurd (cc)
      build_step_node-Succeeds (Step.step (some op) (Steps.cons n ns)) fp edge path quiet =
          absurd (cc)
      build_step_node-Succeeds (Step.step (some op) Steps.end) fp edge path quiet =
          let member : 0 < count op ops = contains-count ops op (ground arith) in
          build_operation-Succeeds fuel op edge (path ++ Label.operation op ∷ []) nothing_visited
            member (enough op member) (λ x e. absurd (cc))
      build_step_node-Succeeds (Step.step none (Steps.cons n ns)) fp edge path quiet =
          bind-Succeeds (build_parallel_steps h fuel 0 (Steps.cons n ns) edge path)
            (λ group. return (Node.node virtual_info group Nodes.end))
            (build_parallel_steps-Succeeds (Steps.cons n ns) _ 0 0 edge path quiet)
            (λ group. (Node.node virtual_info group Nodes.end, refl))

      build_parallel_steps-Succeeds :
          (ns : Steps) (fp : FieldPath) (i k : ℕ) (edge : Option EdgeRef) (path : List Label)
          → steps_reachable h ops fp i ns ≡ []
          → Succeeds nothing_visited (build_parallel_steps h fuel k ns edge path)
      build_parallel_steps-Succeeds Steps.end fp i k edge path quiet = (Nodes.end, refl)
      build_parallel_steps-Succeeds (Steps.cons n ns) fp i k edge path quiet =
          let (q, qs) = append-eq-nil (step_reachable h ops (fp /ᵢ i) n) _ quiet in
          bind-Succeeds (on_clone (build_step_node h fuel n edge (path ++ Label.parallel k ∷ [])))
            (λ child. build_parallel_steps h fuel (suc k) ns edge path >>= λ rest.
              return (Nodes.cons child rest))
            (clone-Succeeds (build_step_node h fuel n edge (path ++ Label.parallel k ∷ []))
              (build_step_node-Succeeds n (fp /ᵢ i) edge (path ++ Label.parallel k ∷ []) q))
            (λ child.
              bind-Succeeds (build_parallel_steps h fuel (suc k) ns edge path)
                (λ rest. return (Nodes.cons child rest))
                (build_parallel_steps-Succeeds ns fp (suc i) (suc k) edge path qs)
                (λ rest. (Nodes.cons child rest, refl)))

    build_steps_succeeds :
        (ns : Steps) (fp : FieldPath) (i k : ℕ) (journey : String)
        → steps_reachable h ops fp i ns ≡ []
        → (children : Nodes F) × (build_steps h fuel k ns journey ≡ ok children)
    unfolding build_steps steps_reachable
    build_steps_succeeds Steps.end fp i k journey quiet = (Nodes.end, refl)
    build_steps_succeeds (Steps.cons n ns) fp i k journey quiet =
        let (q, qs) = append-eq-nil (step_reachable h ops (fp /ᵢ i) n) _ quiet in
        let (child, e) =
          build_step_node-Succeeds n (fp /ᵢ i) none (Label.name journey ∷ Label.step k ∷ []) q in
        let (children, es) = build_steps_succeeds ns fp (suc i) (suc k) journey qs in
        (Nodes.cons child children, rw (e, build_steps) (rw (es, build_steps)))

    plan_of_succeeds :
        (journey : String) (j : Journey F) (fp : FieldPath)
        → has_steps j.steps ≡ true
        → steps_reachable h ops fp 0 j.steps ≡ []
        → (plan : Plan F) × (plan_of h fuel journey (some j) ≡ ok plan)
          × (plan.journey_name ≡ journey)
    unfolding plan_of
    plan_of_succeeds journey j fp stepped quiet =
        let (children, e) = build_steps_succeeds j.steps fp 0 0 journey quiet in
        (
          record { journey_name = journey; root = root_of h fuel children },
          rw (stepped, plan_of) (rw (e, plan_of)),
          refl,
        )

build_plan_of :
    {F : Type 0} (h : Heap F) (fuel : ℕ) (s : Schema F) (name : String) (found : Option (Journey F))
    (j : Journey F) {plan : Plan F}
    → lookup name s.journeys ≡ some found
    → found ≡ some j
    → plan_of h fuel name (some j) ≡ ok plan
    → build_plan h fuel s name ≡ ok plan
unfolding build_plan
build_plan_of h fuel s name found j there is_j e = rw (there, build_plan) (rw is_j e)

-- For a topology that Validate accepts, the plan of each of its journeys can be built, with the fuel of
-- one level for each operation.
pub build_plan_validated :
    (fl : Float64) (depth fuel : ℕ) (h : Heap fl.F) (s : Schema fl.F) (name : String)
    (found : Option (Journey fl.F))
    → validate fl depth h (some s) ≡ some []
    → length (all_schema_operations h s) ≤ fuel
    → lookup name s.journeys ≡ some found
    → (plan : Plan fl.F) × (build_plan h fuel s name ≡ ok plan) × (plan.journey_name ≡ name)
build_plan_validated fl depth fuel h s name found quiet enough there =
    let (back, orphans, dag, reach, variants, _) = validate_parts fl depth h s quiet in
    let sound : IsSound h s = record {
      back_pointers = back;
      no_orphans = orphans;
      acyclic = dag;
      reachable = reach;
      variants = variants;
    } in
    let (rank, ranked, bound) = validate_dag-IsRanked h s dag in
    let (j, fp, is_j, stepped, steps) = journey_quiet fl depth h s quiet name found there in
    let (plan, e, named) =
      plan_of_succeeds h s sound rank ranked fuel (λ op m. omega (arith, bound op m)) name j fp
        stepped steps in
    (plan, build_plan_of h fuel s name found j there is_j e, named)
