-- ===== src/Journey/Fault/Fold.antt =====
-- journey/fault.go: foldFaults, the faults that are active at one node.
use xk6_otel_gen.Prelude.{
  String, Bool, true, false, Option, none, some, List, [], ◌∷◌, if◌then◌else◌,
}
use xk6_otel_gen.Prelude.Int.{pos, ltb_ℤ, add_64}
use xk6_otel_gen.Topology.Enums.{FaultKind}
use xk6_otel_gen.Topology.Float.{Float64}
use xk6_otel_gen.Topology.Types.{Heap, Duration, FaultSpec, ServiceRef, OperationRef, EdgeRef}
use xk6_otel_gen.Topology.Graph.{get}
use xk6_otel_gen.Topology.Faults.{FaultOverlay}
use xk6_otel_gen.Journey.World.{World}
use xk6_otel_gen.Journey.Plan.{NodeInfo}
use xk6_otel_gen.Journey.Fault.{
  clamp_probability, sample_inflation, fault_active, fault_intensity_for, default_fault_error_type,
}

pub record FoldedFault (F : Type 0) : Type 0 where
  pub crashed : Bool
  pub disconnected : Bool
  pub error_rate : F
  pub error_type : String
  pub latency_inflate : Duration

module _ (fl : Float64) where
  open fl use {F, zero_f, lt_f, mul_f}

  -- foldedFault{}
  abbrev pub zero_fault : FoldedFault F
  zero_fault = record {
    crashed = false;
    disconnected = false;
    error_rate = zero_f;
    error_type = "";
    latency_inflate = pos 0;
  }

  -- Whether a fault of a kind is among those folded.
  abbrev pub fault_active_for_kind : FoldedFault F → FaultKind → Bool
  fault_active_for_kind ff FaultKind.latency_inflation = ltb_ℤ (pos 0) ff.latency_inflate
  fault_active_for_kind ff FaultKind.crash = ff.crashed
  fault_active_for_kind ff FaultKind.disconnect = ff.disconnected
  fault_active_for_kind ff FaultKind.error_rate_override = lt_f zero_f ff.error_rate
  fault_active_for_kind ff (FaultKind.other k) = false

  module _ (world : World F) (h : Heap F) where
    open world use {W}

    -- What a fault changes if it is active.
    if_active :
        FaultSpec F → F → (FoldedFault F → FoldedFault F) → FoldedFault F → W → FoldedFault F × W
    if_active spec intensity change ff w =
        let (active, w') = fault_active fl world spec intensity w in
        if active then (change ff, w') else (ff, w')

    inflate : FaultSpec F → F → FoldedFault F → FoldedFault F
    inflate spec intensity ff = record ff {
      latency_inflate = add_64 ff.latency_inflate (sample_inflation fl spec intensity);
    }

    -- The switches of the three loops, on the kind of the fault.
    unfoldable pub fold_node_fault :
        FaultKind → FaultSpec F → F → FoldedFault F → W → FoldedFault F × W
    unfolding if_active inflate
    fold_node_fault FaultKind.crash spec intensity ff w =
        if_active spec intensity (λ f. record f { crashed = true }) ff w
    fold_node_fault FaultKind.latency_inflation spec intensity ff w =
        if_active spec intensity (inflate spec intensity) ff w
    fold_node_fault _ spec intensity ff w = (ff, w)

    unfoldable pub fold_edge_fault :
        FaultKind → FaultSpec F → F → FoldedFault F → W → FoldedFault F × W
    unfolding if_active inflate
    fold_edge_fault FaultKind.disconnect spec intensity ff w =
        if_active spec intensity (λ f. record f { disconnected = true }) ff w
    fold_edge_fault FaultKind.latency_inflation spec intensity ff w =
        if_active spec intensity (inflate spec intensity) ff w
    fold_edge_fault _ spec intensity ff w = (ff, w)

    unfoldable pub fold_operation_fault :
        NodeInfo F → FaultKind → FaultSpec F → F → FoldedFault F → W → FoldedFault F × W
    unfolding if_active inflate
    fold_operation_fault info FaultKind.error_rate_override spec intensity ff w = (
      record ff {
        error_rate = clamp_probability fl (mul_f spec.severity.value intensity);
        error_type = default_fault_error_type h info;
      },
      w,
    )
    fold_operation_fault info FaultKind.latency_inflation spec intensity ff w =
        if_active spec intensity (inflate spec intensity) ff w
    fold_operation_fault info _ spec intensity ff w = (ff, w)

    unfoldable pub fold_specs :
        (FaultKind → FaultSpec F → F → FoldedFault F → W → FoldedFault F × W)
        → List (FaultSpec F)
        → FoldedFault F
        → W
        → FoldedFault F × W
    fold_specs fold [] ff w = (ff, w)
    fold_specs fold (spec ∷ specs) ff w =
        let (intensity, w1) = fault_intensity_for fl world h spec w in
        let (ff', w2) = fold spec.kind spec intensity ff w1 in fold_specs fold specs ff' w2

    -- The edge's own error rate.
    unfoldable pub edge_errors : NodeInfo F → EdgeRef → FoldedFault F → FoldedFault F
    edge_errors info e ff =
        if lt_f zero_f (h.edge e).error_rate
        then record ff {
          error_rate = clamp_probability fl (h.edge e).error_rate;
          error_type = default_fault_error_type h info;
        }
        else ff

    module _ (overlay : FaultOverlay F) where
      -- The parts of foldFaults: the faults of the service, of the edge and of the operation.
      fold_service : Option ServiceRef → FoldedFault F → W → FoldedFault F × W
      fold_service none ff w = (ff, w)
      fold_service (some svc) ff w = fold_specs fold_node_fault (overlay.node_faults svc) ff w

      fold_edge : NodeInfo F → Option EdgeRef → FoldedFault F → W → FoldedFault F × W
      fold_edge info none ff w = (ff, w)
      fold_edge info (some e) ff w =
          fold_specs fold_edge_fault (overlay.edge_faults e) (edge_errors info e ff) w

      operation_at : NodeInfo F → Option ServiceRef → Option OperationRef
      operation_at info none = none
      operation_at info (some svc) = get info.operation (h.service svc).operations

      fold_operation : NodeInfo F → Option OperationRef → FoldedFault F → W → FoldedFault F × W
      fold_operation info none ff w = (ff, w)
      fold_operation info (some op) ff w =
          fold_specs (fold_operation_fault info) (overlay.operation_faults op) ff w

      unfoldable pub fold_faults : NodeInfo F → W → FoldedFault F × W
      unfolding fold_service fold_edge fold_operation operation_at
      fold_faults info w =
          let (ff1, w1) = fold_service info.service zero_fault w in
          let (ff2, w2) = fold_edge info info.edge ff1 w1 in
          fold_operation info (operation_at info info.service) ff2 w2
