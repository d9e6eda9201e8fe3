-- ===== src/Synth/Observable.antt =====
-- synth/observable.go: the accumulators that observable metrics read. A cell of the state is the bit
-- pattern of a float; each atomic operation on it is one step, and callers of Add interleave.
pub mod Atomic
use xk6_otel_gen.Prelude.{
  ℕ, suc, ◌+◌, ◌≡◌, String, Bool, true, false, not, ◌&&◌, ◌||◌, Option, none, some, List, [], ◌∷◌,
  ◌++◌, str_eq, ◌==◌, if◌then◌else◌,
}
use xk6_otel_gen.Prelude.Int.{eq_ℤ}
use xk6_otel_gen.Topology.Enums.{FaultKind, fault_kind_code}
use xk6_otel_gen.Topology.Float.{Float64}
use xk6_otel_gen.Topology.Types.{
  FaultSpec, ObservableMetricSpec, MetricSourceSpec, MetricFaultLink, ServiceRef,
}
use xk6_otel_gen.Topology.Graph.{lookup}
use xk6_otel_gen.Topology.Faults.{FaultOverlay}

-- math.Float64bits and math.Float64frombits.
pub record FloatBits (fl : Float64) : Type 0 where
  pub to_bits : fl.F → ℕ
  pub from_bits : ℕ → fl.F

-- A call of Add: before the load, or with the bits that it loaded.
pub data Phase : Type 0 where
  starting : Phase
  loaded : ℕ → Phase

module _ (fl : Float64) (fb : FloatBits fl) where
  open fl use {F, zero_f, one_f, add_f, sub_f, le_f}

  pub record Adder : Type 0 where
    pub delta : F
    pub phase : Phase

  -- One cell, the calls of Add on it that have not returned, and the deltas of those that have.
  pub record Cell : Type 0 where
    pub bits : ℕ
    pub adders : List Adder
    pub added : List F

  abbrev pub adder : F → Phase → Adder
  adder delta phase = record { delta = delta; phase = phase }

  -- math.Float64bits(oldValue + delta)
  abbrev pub new_bits : ℕ → F → ℕ
  new_bits old delta = fb.to_bits (add_f (fb.from_bits old) delta)

  -- cell.bits.CompareAndSwap, by the call between the others.
  unfoldable pub compare_and_swap : List Adder → F → ℕ → List Adder → Cell → Cell
  compare_and_swap before delta old after c =
      if c.bits == old
      then record {
        bits = new_bits old delta;
        adders = before ++ after;
        added = c.added ++ delta ∷ [];
      }
      else record c { adders = before ++ adder delta Phase.starting ∷ after }

  pub data AddStep : Cell → Cell → Type 0 where
    called :
        (delta : F) (c : Cell)
        → AddStep c (record c { adders = adder delta Phase.starting ∷ c.adders })
    loads :
        (before after : List Adder) (delta : F) (c : Cell)
        → c.adders ≡ before ++ adder delta Phase.starting ∷ after
        → AddStep c (record c { adders = before ++ adder delta (Phase.loaded c.bits) ∷ after })
    swaps :
        (before after : List Adder) (delta : F) (old : ℕ) (c : Cell)
        → c.adders ≡ before ++ adder delta (Phase.loaded old) ∷ after
        → AddStep c (compare_and_swap before delta old after c)

  pub data AddSteps : Cell → Cell → Type 0 where
    done : (c : Cell) → AddSteps c c
    then_step : {a b c : Cell} → AddSteps a b → AddStep b c → AddSteps a c

  -- The cells by their keys, as valueFor stores them.
  abbrev pub ObservableState : Type 0
  ObservableState = List (String × ℕ)

  abbrev value_of : Option ℕ → F
  value_of none = zero_f
  value_of (some bits) = fb.from_bits bits

  -- ObservableState.Load
  unfoldable pub load : Option ObservableState → String → F
  unfolding lookup
  load none key = zero_f
  load (some values) key = if str_eq key "" then zero_f else value_of (lookup key values)

  -- valueFor: the bits of the cell, which is 0 if it is new.
  abbrev bits_or_zero : Option ℕ → ℕ
  bits_or_zero none = 0
  bits_or_zero (some bits) = bits

  abbrev put : String → ℕ → ObservableState → ObservableState
  put key bits [] = (key, bits) ∷ []
  put key bits ((k, b) ∷ rest) =
      if str_eq k key then (k, bits) ∷ rest else (k, b) ∷ put key bits rest

  -- Add, when nothing comes between its load and its swap.
  unfoldable pub add_delta : Option ObservableState → String → F → Option ObservableState
  unfolding lookup
  add_delta none key delta = none
  add_delta (some values) key delta =
      if str_eq key ""
      then some values
      else some (put key (new_bits (bits_or_zero (lookup key values)) delta) values)

  unfoldable pub any_certain : FaultKind → List (FaultSpec F) → Bool
  any_certain kind [] = false
  any_certain kind (spec ∷ specs) =
      (eq_ℤ (fault_kind_code spec.kind) (fault_kind_code kind)
        && le_f one_f spec.severity.probability)
      || any_certain kind specs

  unfoldable pub deterministic_service_fault_active : FaultOverlay F → ServiceRef → FaultKind → Bool
  unfolding any_certain
  deterministic_service_fault_active overlay svc kind = any_certain kind (overlay.node_faults svc)

  abbrev from_source : F → Option MetricSourceSpec → Option ObservableState → F
  unfolding load
  from_source value none state = value
  from_source value (some source) state =
      if str_eq source.minus ""
      then add_f value (load state source.accumulator)
      else sub_f (add_f value (load state source.accumulator)) (load state source.minus)

  abbrev value_under_fault : F → Option (MetricFaultLink F) → (FaultKind → Bool) → F
  value_under_fault value none active = value
  value_under_fault value (some link) active =
      if active link.kind
      then if link.has_value then link.value else add_f value link.delta
      else value

  unfoldable pub observable_metric_value :
      ServiceRef → ObservableMetricSpec F → FaultOverlay F → Option ObservableState → F
  unfolding load deterministic_service_fault_active
  observable_metric_value svc spec overlay state =
      value_under_fault (from_source spec.baseline spec.source state) spec.when_fault
        (deterministic_service_fault_active overlay svc)
