-- ===== src/Topology/Marshal/Severity.antt =====
-- The severities and schedules of faults that topology/marshal.go writes, as topology/parse.go reads
-- them and topology/equal.go compares them.
use xk6_otel_gen.Prelude.{
  ℕ, suc, ◌≡◌, refl, Bool, true, false, ◌&&◌, ◌||◌, Option, some, List, [], ◌∷◌, append-eq-nil,
  Bool-cases, inl, inr, arith,
}
use xk6_otel_gen.Prelude.Int.{ℤ, pos, negsuc, eq_ℤ}
use xk6_otel_gen.Topology.Float.{Float64}
use xk6_otel_gen.Topology.Types.{FaultSchedulePoint, SeverityParams, Duration}
use xk6_otel_gen.Topology.Errors.{FieldPath, ◌/ₖ◌, ◌/ᵢ◌}
use xk6_otel_gen.Topology.Validate.Domain.{
  report, negative, valid_probability, validate_fault_schedule,
}
use xk6_otel_gen.Topology.Parse.{or_default, resolve_severity, resolve_fault_schedule}
use xk6_otel_gen.Topology.Marshal.{
  unless, unless_zero, is_zero_severity, marshal_severity, marshal_fault_schedule,
}
use xk6_otel_gen.Topology.Marshal.Leaves.{EqLaws, eq_ℤ_self}
use xk6_otel_gen.Topology.Equal.{
  equal_each, equal_each-cons, equal_point, equal_severity, equal_fault_schedule,
}

both_true : (p q : Bool) → (p && q) ≡ true → (p ≡ true) × (q ≡ true)
both_true true q h = (refl, h)
both_true false q h = absurd cc

first_false : (p q : Bool) → (p || q) ≡ false → p ≡ false
first_false true q h = h
first_false false q h = refl

reported :
    (wrong : Bool) (path : FieldPath) (rule : _) → report wrong path rule ≡ [] → wrong ≡ false
reported true path rule quiet = absurd cc
reported false path rule quiet = refl

from_zero : (a : ℤ) → eq_ℤ a (pos 0) ≡ true → eq_ℤ (pos 0) a ≡ true
from_zero (pos n) h = ground (arith, h)
from_zero (negsuc n) h = ground (arith, h)

module _ (fl : Float64) (laws : EqLaws fl) where
  open fl use {F, zero_f, eq_f, is_nan, is_inf, lt_f}

  -- A number that is left out where it is 0, and read as 0 where it is left out.
  restored : (x : F) → is_nan x ≡ false → eq_f (or_default (unless_zero fl x) zero_f) x ≡ true
  restored x number = elim (Bool-cases (eq_f x zero_f)) [
    | inl is_zero ↦ rw is_zero (laws.eq_sym x zero_f is_zero)
    | inr other ↦ rw other (laws.eq_self x number)
  ]

  restored_duration : (a : ℤ) → eq_ℤ (or_default (unless (eq_ℤ a (pos 0)) a) (pos 0)) a ≡ true
  restored_duration a = elim (Bool-cases (eq_ℤ a (pos 0))) [
    | inl is_zero ↦ rw is_zero (from_zero a is_zero)
    | inr other ↦ rw other (eq_ℤ_self a)
  ]

  pub restored_severity :
      (sev : SeverityParams F)
      → is_nan sev.probability ≡ false
      → is_nan sev.multiplier ≡ false
      → is_nan sev.value ≡ false
      → equal_severity fl (resolve_severity fl (marshal_severity fl sev)) sev ≡ true
  unfolding equal_severity resolve_severity marshal_severity
  restored_severity sev p m v = elim (Bool-cases (is_zero_severity fl sev)) [
    | inl all_zero ↦
        let (p_zero, rest) = both_true (eq_f sev.probability zero_f) _ all_zero in
        let (m_zero, rest) = both_true (eq_f sev.multiplier zero_f) _ rest in
        let (add_zero, v_zero) = both_true (eq_ℤ sev.add (pos 0)) (eq_f sev.value zero_f) rest in
        rw
          (
            all_zero,
            laws.eq_sym sev.probability zero_f p_zero,
            laws.eq_sym sev.multiplier zero_f m_zero,
            from_zero sev.add add_zero,
            laws.eq_sym sev.value zero_f v_zero,
          )
          refl
    | inr some_ ↦
        rw
          (
            some_,
            restored sev.probability p,
            restored sev.multiplier m,
            restored_duration sev.add,
            restored sev.value v,
          )
          refl
  ]

  pub restored_schedule :
      (schedule : List (FaultSchedulePoint F))
      → resolve_fault_schedule fl (marshal_fault_schedule fl schedule) ≡ schedule
  unfolding resolve_fault_schedule marshal_fault_schedule
  restored_schedule [] = refl
  restored_schedule (point ∷ rest) = cc (restored_schedule rest)

  pub schedule_self :
      (path : FieldPath) (i : ℕ) (previous : Option Duration)
      (schedule : List (FaultSchedulePoint F))
      → validate_fault_schedule fl path i previous schedule ≡ []
      → equal_fault_schedule fl schedule schedule ≡ true
  unfolding validate_fault_schedule equal_fault_schedule
  schedule_self path i previous [] quiet = unfold equal_each in refl
  schedule_self path i previous (point ∷ rest) quiet =
      let (_, quiet) =
        append-eq-nil (report (negative point.at) (path /ᵢ i /ₖ "at") "D-15") _ quiet in
      let (_, quiet) = append-eq-nil _ _ quiet in
      let (intensity, quiet) =
        append-eq-nil
          (report
            (is_nan point.intensity || (is_inf point.intensity || lt_f point.intensity zero_f))
            (path /ᵢ i /ₖ "intensity") "D-15")
          _ quiet in
      let number = first_false (is_nan point.intensity) _ (
        reported (is_nan point.intensity || (is_inf point.intensity || lt_f point.intensity zero_f))
          (path /ᵢ i /ₖ "intensity") "D-15" intensity) in
      equal_each-cons (equal_point fl) point point rest rest
        (rw (eq_ℤ_self point.at, laws.eq_self point.intensity number) refl)
        (schedule_self path (suc i) (some point.at) rest quiet)

  pub valid_number : (x : F) → valid_probability fl x ≡ true → is_nan x ≡ false
  unfolding valid_probability
  valid_number x valid = elim (Bool-cases (is_nan x)) [
    | inl nan ↦ absurd (cc (nan, valid))
    | inr number ↦ number
  ]
