-- ===== src/Topology/Marshal/Steps.antt =====
-- The steps that topology/marshal.go writes are read back by resolveStep of topology/parse.go.
use xk6_otel_gen.Prelude.{ℕ, suc, ◌≡◌, refl, true, false, Option, some, none, [], str_eq}
use xk6_otel_gen.Topology.Types.{Heap, Schema, Step, Steps, ServiceRef, OperationRef}
use xk6_otel_gen.Topology.Errors.{FieldPath, ◌/ₖ◌, ◌/ᵢ◌}
use xk6_otel_gen.Topology.Graph.{get}
use xk6_otel_gen.Topology.Parse.Lookup.{Parsed, lookup_operation_at_path}
use xk6_otel_gen.Topology.Parse.Steps.{resolve_step, resolve_steps, resolve_single_step}
use xk6_otel_gen.Topology.Marshal.Tree.{marshal_step, marshal_steps, name_of_service}

-- An operation that stands in the maps of the schema under its own name and its service's.
pub record IsRegistered {F : Type 0} (h : Heap F) (s : Schema F) (op : OperationRef) : Type 0 where
  pub svc : ServiceRef
  pub is_service : (h.operation op).service ≡ some svc
  pub service_key : get (h.service svc).name s.services ≡ some svc
  pub operation_key : get (h.operation op).name (h.service svc).operations ≡ some op
  pub service_named : str_eq (h.service svc).name "" ≡ false
  pub operation_named : str_eq (h.operation op).name "" ≡ false

module _ {F : Type 0} (h : Heap F) (s : Schema F) where
  -- Steps of one registered operation, and groups of at least one such step.
  unfoldable mutual
    pub IsRestorable : Step → Type 0
    IsRestorable Step.null = true ≡ false
    IsRestorable (Step.step (some op) parallel) = IsRegistered h s op × (parallel ≡ Steps.end)
    IsRestorable (Step.step none Steps.end) = true ≡ false
    IsRestorable (Step.step none (Steps.cons t ts)) = IsRestorable t × AllRestorable ts

    pub AllRestorable : Steps → Type 0
    AllRestorable Steps.end = Unit
    AllRestorable (Steps.cons t ts) = IsRestorable t × AllRestorable ts

  pub lookup_registered :
      (op : OperationRef) (registered : IsRegistered h s op) (path : FieldPath)
      → lookup_operation_at_path h s (h.service registered.svc).name (h.operation op).name path
        ≡ Parsed.ok op
  unfolding lookup_operation_at_path
  lookup_registered op registered path =
      rw
        (
          registered.service_named, registered.operation_named, registered.service_key,
          registered.operation_key,
        )
        refl

  resolve_registered :
      (op : OperationRef) (registered : IsRegistered h s op) (path : FieldPath)
      → resolve_single_step h s (h.service registered.svc).name (h.operation op).name path
        ≡ Parsed.ok (Step.step (some op) Steps.end)
  unfolding resolve_single_step
  resolve_registered op registered path =
      rw
        (registered.service_named, registered.operation_named, lookup_registered op registered path)
        refl

  -- The name of a service behind a pointer that is known.
  name_at :
      (owner : Option ServiceRef) (svc : ServiceRef)
      → owner ≡ some svc
      → name_of_service h owner ≡ (h.service svc).name
  name_at owner svc is = rw is refl

  resolve_marshalled_op :
      (op : OperationRef) (registered : IsRegistered h s op) (path : FieldPath)
      → resolve_step h s (marshal_step h (Step.step (some op) Steps.end)) path
        ≡ Parsed.ok (Step.step (some op) Steps.end)
  unfolding resolve_step marshal_step
  resolve_marshalled_op op registered path =
      rw
        (
          name_at (h.operation op).service registered.svc registered.is_service,
          registered.service_named,
          resolve_registered op registered path,
        )
        refl

  mutual
    unfolding resolve_step marshal_step IsRestorable

    restored_step :
        (t : Step)
        → IsRestorable t
        → (path : FieldPath) → resolve_step h s (marshal_step h t) path ≡ Parsed.ok t
    restored_step Step.null r path = absurd cc
    restored_step (Step.step (some op) Steps.end) r path = resolve_marshalled_op op r.0 path
    restored_step (Step.step (some op) (Steps.cons t ts)) r path = absurd cc
    restored_step (Step.step none Steps.end) r path = absurd cc
    restored_step (Step.step none (Steps.cons t ts)) r path =
        rw (restored_steps (Steps.cons t ts) r (path /ₖ "parallel") 0) refl

    restored_steps :
        (ts : Steps)
        → AllRestorable ts
        → (path : FieldPath) (i : ℕ) → resolve_steps h s (marshal_steps h ts) path i ≡ ([], ts)
    restored_steps Steps.end r path i = refl
    restored_steps (Steps.cons t ts) r path i =
        rw (restored_step t r.0 (path /ᵢ i), restored_steps ts r.1 path (suc i)) refl

  -- Reading what was written for steps gives the steps, without an error and at any path, if each
  -- is one operation that stands in the schema under its names, or a group of at least one such step.
  pub resolve_steps-marshal_steps :
      (ts : Steps)
      → AllRestorable ts
      → (path : FieldPath) (i : ℕ) → resolve_steps h s (marshal_steps h ts) path i ≡ ([], ts)
  resolve_steps-marshal_steps ts restorable path i = restored_steps ts restorable path i
