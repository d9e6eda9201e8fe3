-- ===== src/Topology/Equal.antt =====
-- topology/equal.go: the equality of the parts that refer to nothing.
pub mod Tree
use xk6_otel_gen.Prelude.{
  ℕ, suc, ◌≡◌, arith, String, Bool, true, false, not, ◌&&◌, Option, none, some, List, [], ◌∷◌,
  str_eq, length, ◌==◌,
}
use xk6_otel_gen.Prelude.Int.{ℤ, pos, eq_ℤ}
use xk6_otel_gen.Topology.Enums.{
  FaultKind, fault_kind_code, metric_type_code, log_condition_code, log_severity_code,
}
use xk6_otel_gen.Topology.Float.{Float64}
use xk6_otel_gen.Topology.Attributes.{equal_attributes}
use xk6_otel_gen.Topology.Types.{
  StackSample, ProfileSpec, MetricFaultLink, MetricSpec, MetricSourceSpec, ObservableMetricSpec,
  MetricStateUpdateSpec, LogEventSpec, LatencyDist, SeverityParams, FaultSchedulePoint,
}

-- for i := range a, until a pair differs.
abbrev pairwise {ℓ} : {A : Type ℓ} → (A → A → Bool) → List A → List A → Bool
pairwise eq [] ys = true
pairwise eq (x ∷ xs) [] = true
pairwise eq (x ∷ xs) (y ∷ ys) = eq x y && pairwise eq xs ys

-- Lists of one length whose elements are equal, place by place.
unfoldable pub equal_each {ℓ} : {A : Type ℓ} → (A → A → Bool) → List A → List A → Bool
equal_each eq xs ys = length xs == length ys && pairwise eq xs ys

equal_each_of :
    (same paired : Bool) (m n : ℕ)
    → (m == n && paired) ≡ true
    → same ≡ true
    → (suc m == suc n && (same && paired)) ≡ true
equal_each_of true true m n rest here = ground arith
equal_each_of true false m n rest here = ground arith
equal_each_of false paired m n rest here = absurd cc

pub equal_each-cons {ℓ} :
    {A : Type ℓ} (eq : A → A → Bool) (x y : A) (xs ys : List A)
    → eq x y ≡ true
    → equal_each eq xs ys ≡ true
    → equal_each eq (x ∷ xs) (y ∷ ys) ≡ true
unfolding equal_each
equal_each-cons eq x y xs ys here rest =
    equal_each_of (eq x y) (pairwise eq xs ys) (length xs) (length ys) rest here

-- if a == nil || b == nil { return a == b }, on pointers to values.
abbrev pub equal_pointer {ℓ} : {A : Type ℓ} → (A → A → Bool) → Option A → Option A → Bool
equal_pointer eq none none = true
equal_pointer eq none (some b) = false
equal_pointer eq (some a) none = false
equal_pointer eq (some a) (some b) = eq a b

unfoldable pub equal_log_event_spec : LogEventSpec → LogEventSpec → Bool
unfolding equal_attributes
equal_log_event_spec a b =
    str_eq a.name b.name
    && (eq_ℤ (log_severity_code a.severity) (log_severity_code b.severity)
        && (eq_ℤ (log_condition_code a.condition) (log_condition_code b.condition)
            && (str_eq a.body b.body && equal_attributes a.attributes b.attributes)))

unfoldable pub equal_log_events : List LogEventSpec → List LogEventSpec → Bool
unfolding equal_each equal_log_event_spec
equal_log_events xs ys = equal_each equal_log_event_spec xs ys

unfoldable pub equal_latency : LatencyDist → LatencyDist → Bool
equal_latency a b = str_eq a.distribution b.distribution && (eq_ℤ a.p50 b.p50 && eq_ℤ a.p95 b.p95)

abbrev equal_source : MetricSourceSpec → MetricSourceSpec → Bool
equal_source a b = str_eq a.accumulator b.accumulator && str_eq a.minus b.minus

abbrev equal_fault_kind : FaultKind → FaultKind → Bool
equal_fault_kind a b = eq_ℤ (fault_kind_code a) (fault_kind_code b)

abbrev equal_bool : Bool → Bool → Bool
equal_bool true b = b
equal_bool false b = not b

module _ (fl : Float64) where
  open fl use {F, eq_f}

  unfoldable pub equal_metric_fault_link : MetricFaultLink F → MetricFaultLink F → Bool
  equal_metric_fault_link a b =
      equal_fault_kind a.kind b.kind
      && (eq_f a.delta b.delta && (eq_f a.value b.value && equal_bool a.has_value b.has_value))

  unfoldable pub equal_metric_spec : MetricSpec F → MetricSpec F → Bool
  unfolding equal_metric_fault_link equal_attributes
  equal_metric_spec a b =
      str_eq a.name b.name
      && (eq_ℤ (metric_type_code a.type) (metric_type_code b.type)
          && (str_eq a.unit b.unit
              && (eq_f a.baseline b.baseline
                  && (eq_ℤ (log_condition_code a.condition) (log_condition_code b.condition)
                      && (equal_attributes a.attributes b.attributes
                          && equal_pointer equal_metric_fault_link a.when_fault b.when_fault)))))

  unfoldable pub equal_metrics : List (MetricSpec F) → List (MetricSpec F) → Bool
  unfolding equal_each equal_metric_spec
  equal_metrics xs ys = equal_each equal_metric_spec xs ys

  unfoldable pub equal_observable_metric_spec :
      ObservableMetricSpec F → ObservableMetricSpec F → Bool
  unfolding equal_metric_fault_link equal_attributes
  equal_observable_metric_spec a b =
      str_eq a.name b.name
      && (eq_ℤ (metric_type_code a.type) (metric_type_code b.type)
          && (str_eq a.unit b.unit
              && (eq_f a.baseline b.baseline
                  && (equal_attributes a.attributes b.attributes
                      && (equal_pointer equal_metric_fault_link a.when_fault b.when_fault
                          && equal_pointer equal_source a.source b.source)))))

  unfoldable pub equal_observable_metrics :
      List (ObservableMetricSpec F) → List (ObservableMetricSpec F) → Bool
  unfolding equal_each equal_observable_metric_spec
  equal_observable_metrics xs ys = equal_each equal_observable_metric_spec xs ys

  -- The body of the loop of equalStateUpdates.
  unfoldable pub equal_state_update : MetricStateUpdateSpec F → MetricStateUpdateSpec F → Bool
  unfolding equal_metric_fault_link
  equal_state_update a b =
      str_eq a.key b.key
      && (eq_f a.delta b.delta
          && (eq_ℤ (log_condition_code a.condition) (log_condition_code b.condition)
              && equal_pointer equal_metric_fault_link a.when_fault b.when_fault))

  unfoldable pub equal_state_updates :
      List (MetricStateUpdateSpec F) → List (MetricStateUpdateSpec F) → Bool
  unfolding equal_each equal_state_update
  equal_state_updates xs ys = equal_each equal_state_update xs ys

  unfoldable pub equal_stack_sample : StackSample F → StackSample F → Bool
  unfolding equal_each
  equal_stack_sample a b = eq_f a.weight b.weight && equal_each str_eq a.frames b.frames

  unfoldable pub equal_stack_samples : List (StackSample F) → List (StackSample F) → Bool
  unfolding equal_each equal_stack_sample
  equal_stack_samples xs ys = equal_each equal_stack_sample xs ys

  unfoldable pub equal_profile : Option (ProfileSpec F) → Option (ProfileSpec F) → Bool
  unfolding equal_stack_samples
  equal_profile a b = equal_pointer equal_specs a b
    where
      equal_specs : ProfileSpec F → ProfileSpec F → Bool
      equal_specs p q =
          equal_bool p.enabled q.enabled
          && (eq_ℤ p.sample_rate q.sample_rate
              && (equal_stack_samples p.baseline q.baseline
                  && (equal_stack_samples p.incident q.incident
                      && equal_pointer equal_fault_kind p.when_fault q.when_fault)))

  unfoldable pub equal_severity : SeverityParams F → SeverityParams F → Bool
  equal_severity a b =
      eq_f a.probability b.probability
      && (eq_f a.multiplier b.multiplier && (eq_ℤ a.add b.add && eq_f a.value b.value))

  abbrev pub equal_point : FaultSchedulePoint F → FaultSchedulePoint F → Bool
  equal_point a b = eq_ℤ a.at b.at && eq_f a.intensity b.intensity

  unfoldable pub equal_fault_schedule :
      List (FaultSchedulePoint F) → List (FaultSchedulePoint F) → Bool
  unfolding equal_each
  equal_fault_schedule xs ys = equal_each equal_point xs ys
