-- ===== src/Journey/Executor/Spans.antt =====
-- What an execution needs to end and what it leaves open: rules for the computations of
-- Journey/World, by the number of spans that are open before and after.
use xk6_otel_gen.Prelude.{
  ℕ, zero, suc, ◌+◌, ◌≡◌, refl, subst, Bool, true, false, Option, none, some, List, [], ◌∷◌, ◌++◌,
  ◌∙◌, if◌then◌else◌, arith,
}
use xk6_otel_gen.Journey.World.{Exec, return, ◌>>=◌, emit, read, branch}
use xk6_otel_gen.Journey.Telemetry.{
  Event, SpanInput, SynthOutcome, MetricInput, LogInput, CustomMetricInput, StateUpdateInput,
  ProfileInput,
}

-- The number of open spans after some events, `none` if a span is finished where none is open.
unfoldable pub open_spans : {F : Type 0} → ℕ → List (Event F) → Option ℕ
open_spans n [] = some n
open_spans n (Event.begin_span input ∷ es) = open_spans (suc n) es
open_spans zero (Event.finish_span o ∷ es) = none
open_spans (suc n) (Event.finish_span o ∷ es) = open_spans n es
open_spans n (Event.set_profile_id ∷ es) = open_spans n es
open_spans n (Event.record_metric input ∷ es) = open_spans n es
open_spans n (Event.emit_log input ∷ es) = open_spans n es
open_spans n (Event.record_custom input ∷ es) = open_spans n es
open_spans n (Event.update_state input ∷ es) = open_spans n es
open_spans n (Event.emit_profile input ∷ es) = open_spans n es

module _ {F : Type 0} where
  -- Events that need i open spans and leave j of them, whatever else is open.
  pub record Shifts (i j : ℕ) (es : List (Event F)) : Type 0 where
    pub shifts : (n : ℕ) → open_spans (n + i) es ≡ some (n + j)

  open_spans-append :
      (n m : ℕ) (es es' : List (Event F))
      → open_spans n es ≡ some m
      → open_spans n (es ++ es') ≡ open_spans m es'
  unfolding open_spans
  open_spans-append n m [] es' e = cc
  open_spans-append n m (Event.begin_span input ∷ es) es' e = open_spans-append (suc n) m es es' e
  open_spans-append zero m (Event.finish_span o ∷ es) es' e = absurd (cc)
  open_spans-append (suc n) m (Event.finish_span o ∷ es) es' e = open_spans-append n m es es' e
  open_spans-append n m (Event.set_profile_id ∷ es) es' e = open_spans-append n m es es' e
  open_spans-append n m (Event.record_metric input ∷ es) es' e = open_spans-append n m es es' e
  open_spans-append n m (Event.emit_log input ∷ es) es' e = open_spans-append n m es es' e
  open_spans-append n m (Event.record_custom input ∷ es) es' e = open_spans-append n m es es' e
  open_spans-append n m (Event.update_state input ∷ es) es' e = open_spans-append n m es es' e
  open_spans-append n m (Event.emit_profile input ∷ es) es' e = open_spans-append n m es es' e

  pub Shifts-append :
      (i j k : ℕ) (es es' : List (Event F))
      → Shifts i j es
      → Shifts j k es'
      → Shifts i k (es ++ es')
  Shifts-append i j k es es' s s' = record {
    shifts = λ n. open_spans-append (n + i) (n + j) es es' (s.shifts n) ∙ s'.shifts n;
  }

plus_zero : (n : ℕ) → n + 0 ≡ n
plus_zero n = omega arith

plus_one : (n : ℕ) → n + 1 ≡ suc n
plus_one n = omega arith

module _ {F : Type 0} where
  -- Events that neither begin nor finish a span.
  pub record Quiet (es : List (Event F)) : Type 0 where
    pub quiet : (n : ℕ) → open_spans n es ≡ some n

  pub Quiet-none : Quiet []
  unfolding open_spans
  Quiet-none = record { quiet = λ n. refl }

  pub Quiet-metric :
      (input : MetricInput) (es : List (Event F))
      → Quiet es
      → Quiet (Event.record_metric input ∷ es)
  unfolding open_spans
  Quiet-metric input es q = record { quiet = q.quiet }

  pub Quiet-log :
      (input : LogInput) (es : List (Event F)) → Quiet es → Quiet (Event.emit_log input ∷ es)
  unfolding open_spans
  Quiet-log input es q = record { quiet = q.quiet }

  pub Quiet-custom :
      (input : CustomMetricInput F) (es : List (Event F))
      → Quiet es
      → Quiet (Event.record_custom input ∷ es)
  unfolding open_spans
  Quiet-custom input es q = record { quiet = q.quiet }

  pub Quiet-state :
      (input : StateUpdateInput F) (es : List (Event F))
      → Quiet es
      → Quiet (Event.update_state input ∷ es)
  unfolding open_spans
  Quiet-state input es q = record { quiet = q.quiet }

  pub Quiet-profile : (input : ProfileInput F) → Quiet (Event.emit_profile input ∷ [])
  unfolding open_spans
  Quiet-profile input = record { quiet = λ n. refl }

  pub metric-Shifts :
      (input : MetricInput) (es : List (Event F))
      → Shifts 1 0 es
      → Shifts 1 0 (Event.record_metric input ∷ es)
  unfolding open_spans
  metric-Shifts input es s = record { shifts = s.shifts }

  pub profile_id-Shifts :
      (es : List (Event F)) → Shifts 1 0 es → Shifts 1 0 (Event.set_profile_id ∷ es)
  unfolding open_spans
  profile_id-Shifts es s = record { shifts = s.shifts }

  pub Quiet-append : (es es' : List (Event F)) → Quiet es → Quiet es' → Quiet (es ++ es')
  Quiet-append es es' q q' = record {
    quiet = λ n. open_spans-append n n es es' (q.quiet n) ∙ q'.quiet n;
  }

  pub Quiet-Shifts : (i : ℕ) (es : List (Event F)) → Quiet es → Shifts i i es
  Quiet-Shifts i es q = record { shifts = λ n. q.quiet (n + i) }

  pub begin_span-Shifts : (input : SpanInput) → Shifts {F = F} 0 1 (Event.begin_span input ∷ [])
  unfolding open_spans
  begin_span-Shifts input = record { shifts = λ n. rw (plus_zero n, plus_one n) refl }

  pub finish_span-Shifts :
      (o : SynthOutcome) (es : List (Event F)) → Quiet es → Shifts 1 0 (Event.finish_span o ∷ es)
  unfolding open_spans
  finish_span-Shifts o es q = record { shifts = λ n. rw (plus_zero n, plus_one n) (q.quiet n) }

module _ {F W : Type 0} where
  -- A computation that ends in every world, with events that shift the open spans from i to j.
  pub record Ends {A : Type 0} (i j : ℕ) (m : Exec W (Event F) A) : Type 0 where
    pub ends : (w : W) → (r : A × (List (Event F) × W)) × ((m w ≡ some r) × Shifts i j (r.1.0))

  pub Ends-return : {A : Type 0} (i : ℕ) (a : A) → Ends i i (return {W = W} {E = Event F} a)
  unfolding open_spans
  Ends-return i a = record { ends = λ w. ((a, ([], w)), (refl, record { shifts = λ n. refl })) }

  pub Ends-read : {A : Type 0} (i : ℕ) (f : W → A × W) → Ends i i (read {E = Event F} f)
  unfolding open_spans
  Ends-read i f = record {
    ends = λ w. (((f w).0, ([], (f w).1)), (refl, record { shifts = λ n. refl }));
  }

  pub Ends-emit : (i j : ℕ) (es : List (Event F)) → Shifts i j es → Ends i j (emit {W = W} es)
  Ends-emit i j es s = record { ends = λ w. ((tt, (es, w)), (refl, s)) }

  pub Ends-bind :
      {A B : Type 0} (i j k : ℕ) (m : Exec W (Event F) A) (f : A → Exec W (Event F) B)
      → Ends i j m
      → ((a : A) → Ends j k (f a))
      → Ends i k (m >>= f)
  Ends-bind i j k m f first rest = record {
    ends = λ w.
        let ((a, (es, w')), (e, s)) = first.ends w in
        let ((b, (es', w'')), (e', s')) = (rest a).ends w' in
        ((b, (es ++ es', w'')), (rw (e, e') refl, Shifts-append i j k es es' s s'));
  }

  pub Ends-branch :
      {A : Type 0} (fork : W → W × W) (i j : ℕ) (m : Exec W (Event F) A)
      → Ends i j m
      → Ends i j (branch fork m)
  Ends-branch fork i j m r = record {
    ends = λ w.
        let ((a, (es, w')), (e, s)) = r.ends (fork w).0 in ((a, (es, (fork w).1)), (rw e refl, s));
  }

  pub Ends-if :
      {A : Type 0} (i j : ℕ) (b : Bool) (m m' : Exec W (Event F) A)
      → Ends i j m
      → Ends i j m'
      → Ends i j (if b then m else m')
  Ends-if i j true m m' r r' = r
  Ends-if i j false m m' r r' = r'

  -- More spans may be open around it.
  pub Ends-inside : {A : Type 0} (m : Exec W (Event F) A) → Ends 0 0 m → Ends 1 1 m
  Ends-inside m r = record {
    ends = λ w.
        let (result, (e, s)) = r.ends w in
        (
          result,
          (
            e,
            record {
              shifts = λ n.
                  subst (λ k. open_spans k (result.1.0) ≡ some k) (plus_zero (n + 1))
                    (s.shifts (n + 1));
            },
          ),
        );
  }
