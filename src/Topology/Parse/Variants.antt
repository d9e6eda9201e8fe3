-- ===== src/Topology/Parse/Variants.antt =====
-- What resolveCallNode of topology/parse.go returns is a single call or a group that is not empty, as
-- rule R-STR-7 of topology/validate.go wants.
use xk6_otel_gen.Prelude.{
  ℕ, suc, ◌≡◌, refl, true, false, Option, none, some, [], ◌∷◌, is_empty, Bool-cases, inl, inr,
}
use xk6_otel_gen.Topology.Float.{Float64}
use xk6_otel_gen.Topology.Types.{Heap, Schema, CallNode, CallNodes, RecoveryPolicy, OperationRef}
use xk6_otel_gen.Topology.Errors.{FieldPath, ◌/ₖ◌, ◌/ᵢ◌}
use xk6_otel_gen.Topology.Raw.{
  RawCallFields, RawCallTarget, RawCallNode, RawCallNodes, RawRecoveryPolicy,
}
use xk6_otel_gen.Topology.Validate.Structure.{has_calls, call_variant, call_variants}
use xk6_otel_gen.Topology.Parse.{is_set}
use xk6_otel_gen.Topology.Parse.Store.{Store}
use xk6_otel_gen.Topology.Parse.Lookup.{ParseErrors, Parsed, unless_failed, Reports, lookup-Reports}
use xk6_otel_gen.Topology.Parse.Calls.{
  has_calls as has_raw_calls, Collected, with_node, parallel_node, edge_node, single_node,
  call_target, target_at, resolve_call_node, resolve_calls, resolve_recovery_policy,
  resolve_fallbacks,
}

unless_failed-Reports {ℓ} : {A : Type ℓ} (es : ParseErrors) (a : A) → Reports (unless_failed es a)
unless_failed-Reports [] a = tt
unless_failed-Reports (e ∷ es) a = refl

module _ (fl : Float64) (h : Heap fl.F) where
  open fl use {F}

  -- A node that R-STR-7 accepts at any path, or an error that says something.
  abbrev pub IsSingleOrGroup : Parsed CallNode → Type 0
  IsSingleOrGroup (Parsed.ok n) = (path : FieldPath) → call_variant h path n ≡ []
  IsSingleOrGroup (Parsed.failed es) = is_empty es ≡ false

  -- Nodes that it accepts, all of them where there is no error.
  pub record AreSingleOrGroup (raws : RawCallNodes F) (c : Collected F CallNodes) : Type 0 where
    pub variants : (path : FieldPath) (i : ℕ) → call_variants h path i c.1.0 ≡ []
    pub is_complete : c.0 ≡ [] → has_calls c.1.0 ≡ has_raw_calls raws

  no_calls : (st : Store F) → AreSingleOrGroup RawCallNodes.end ([], (CallNodes.end, st))
  unfolding call_variants
  no_calls st = record { variants = λ path i. refl; is_complete = λ e. refl }

  appended :
      (n : RawCallNode F) (raws : RawCallNodes F) (node : Parsed CallNode)
      (c : Collected F CallNodes)
      → IsSingleOrGroup node
      → AreSingleOrGroup raws c
      → AreSingleOrGroup (RawCallNodes.cons n raws) (with_node node c)
  unfolding call_variants
  appended n raws (Parsed.ok m) (errs, (ns, st)) good rest = record {
    variants = λ path i. rw (good (path /ᵢ i), rest.variants path (suc i)) refl;
    is_complete = λ e. refl;
  }
  appended n raws (Parsed.failed []) (errs, (ns, st)) good rest = absurd cc
  appended n raws (Parsed.failed (x ∷ xs)) (errs, (ns, st)) good rest = record {
    variants = rest.variants;
    is_complete = λ e. absurd cc;
  }

  grouped :
      (raws : RawCallNodes F) (c : Collected F CallNodes)
      → has_raw_calls raws ≡ true
      → AreSingleOrGroup raws c
      → IsSingleOrGroup (parallel_node c).0
  unfolding call_variants
  grouped raws ([], (ns, st)) some_ good =
      λ path. rw (good.is_complete refl, some_, good.variants (path /ₖ "parallel") 0) refl
  grouped raws (e ∷ es, (ns, st)) some_ good = refl

  target-Reports :
      (s : Schema F) (owner : OperationRef) (target : Option RawCallTarget) (path : FieldPath)
      (st : Store F)
      → Reports (target_at fl s owner target path st)
  target-Reports s owner none path st = refl
  target-Reports s owner (some to) path st =
      lookup-Reports st.heap s to.service to.operation (path /ₖ "to")

  single :
      (owner : OperationRef) (target : Parsed OperationRef) (rc : RawCallFields F) (st : Store F)
      (policy : Parsed (Option RecoveryPolicy) × Store F)
      → Reports target
      → Reports policy.0
      → IsSingleOrGroup (single_node fl owner target rc st policy).0
  unfolding call_variants edge_node
  single owner (Parsed.failed es) rc st policy t p = t
  single owner (Parsed.ok target) rc st (Parsed.failed es, st') t p = p
  single owner (Parsed.ok target) rc st (Parsed.ok policy, st') t p = λ path. refl

  policy-Reports :
      (s : Schema F) (owner : OperationRef) (policy : RawRecoveryPolicy F) (path : FieldPath)
      (st : Store F)
      → Reports (resolve_recovery_policy fl s owner policy path st).0
  unfolding resolve_call_node
  policy-Reports s owner RawRecoveryPolicy.no_policy path st = tt
  policy-Reports s owner (RawRecoveryPolicy.policy raws action response) path st =
      unless_failed-Reports (resolve_fallbacks fl s owner raws (path /ₖ "fallback") 0 st).0 _

  module _ (s : Schema F) (owner : OperationRef) where
    mutual
      unfolding resolve_call_node

      single_or_group :
          (n : RawCallNode F) (path : FieldPath) (st : Store F)
          → IsSingleOrGroup (resolve_call_node fl s owner n path st).0
      single_or_group RawCallNode.null path st = refl
      single_or_group (RawCallNode.call rc parallel on_failure) path st =
          elim (Bool-cases (is_set rc.target)) [
            | inl to ↦ elim (Bool-cases (has_raw_calls parallel)) [
              | inl both ↦ rw (to, both) refl
              | inr alone ↦
                  rw (to, alone)
                    (single owner (call_target fl s owner rc path st) rc st
                      (resolve_recovery_policy fl s owner on_failure (path /ₖ "on_failure") st)
                      (target-Reports s owner rc.target path st)
                      (policy-Reports s owner on_failure (path /ₖ "on_failure") st))
            ]
            | inr group ↦ elim (Bool-cases (has_raw_calls parallel)) [
              | inl some_ ↦
                  rw (group, some_)
                    (grouped parallel (resolve_calls fl s owner parallel (path /ₖ "parallel") 0 st)
                      some_ (all_single_or_group parallel (path /ₖ "parallel") 0 st))
              | inr neither ↦ rw (group, neither) refl
            ]
          ]

      all_single_or_group :
          (ns : RawCallNodes F) (path : FieldPath) (i : ℕ) (st : Store F)
          → AreSingleOrGroup ns (resolve_calls fl s owner ns path i st)
      all_single_or_group RawCallNodes.end path i st = no_calls st
      all_single_or_group (RawCallNodes.cons n ns) path i st =
          appended n ns _ _ (single_or_group n (path /ᵢ i) st)
            (all_single_or_group ns path (suc i) (resolve_call_node fl s owner n (path /ᵢ i) st).1)

    -- The calls that the parser returns without an error pass R-STR-7 in every heap and at every path,
    -- and there are some if the YAML has some.
    pub resolve_calls-variants :
        (raws : RawCallNodes F) (path : FieldPath) (i : ℕ) (st : Store F)
        → (resolve_calls fl s owner raws path i st).0 ≡ []
        → (at_path : FieldPath) (from : ℕ)
        → (call_variants h at_path from (resolve_calls fl s owner raws path i st).1.0 ≡ [])
          × (has_calls (resolve_calls fl s owner raws path i st).1.0 ≡ has_raw_calls raws)
    resolve_calls-variants raws path i st fine at_path from =
        let good = all_single_or_group raws path i st in
        (good.variants at_path from, good.is_complete fine)
