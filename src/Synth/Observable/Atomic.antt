-- ===== src/Synth/Observable/Atomic.antt =====
-- Interleaved calls of Add of synth/observable.go amount to additions one after another.
use xk6_otel_gen.Prelude.{
  ℕ, ◌+◌, ◌≡◌, refl, sym, ap, ◌∙◌, List, [], ◌∷◌, ◌++◌, length, length-append, arith, ◌==◌, ==→eq,
  Bool-cases, inl, inr,
}
use xk6_otel_gen.Topology.Float.{Float64}
use xk6_otel_gen.Synth.Observable.{
  FloatBits, Phase, Adder, Cell, adder, compare_and_swap, AddStep, AddSteps,
}

module _ (fl : Float64) (fb : FloatBits fl) where
  open fl use {F, add_f}

  -- The deltas added to a value one after another.
  unfoldable pub sum_from : F → List F → F
  sum_from value [] = value
  sum_from value (delta ∷ deltas) = sum_from (add_f value delta) deltas

  sum_from-append :
      (value : F) (deltas : List F) (delta : F)
      → sum_from value (deltas ++ delta ∷ []) ≡ add_f (sum_from value deltas) delta
  unfolding sum_from
  sum_from-append value [] delta = refl
  sum_from-append value (d ∷ deltas) delta = sum_from-append (add_f value d) deltas delta

  unfoldable calls_in : {a b : Cell fl fb} → AddStep fl fb a b → ℕ
  calls_in (AddStep.called delta c) = 1
  calls_in _ = 0

  -- The calls of Add among the steps.
  unfoldable pub calls : {a b : Cell fl fb} → AddSteps fl fb a b → ℕ
  unfolding calls_in
  calls (AddSteps.done c) = 0
  calls (AddSteps.then_step run step) = calls run + calls_in step

  abbrev count_all : Cell fl fb → ℕ
  count_all c = length c.adders + length c.added

  -- The cell is the sum of the deltas that are added, from the value at the start.
  record IsSum (start : F) (c : Cell fl fb) : Type 0 where
    sums : fb.from_bits c.bits ≡ sum_from start c.added

  record Keeps (start : F) (a b : Cell fl fb) (new : ℕ) : Type 0 where
    counts : count_all b ≡ count_all a + new
    stays : IsSum start a → IsSum start b

  -- Float64frombits undoes Float64bits.
  module _ (restores : (x : F) → fb.from_bits (fb.to_bits x) ≡ x) (start : F) where
    swap-Keeps :
        (before after : List (Adder fl fb)) (delta : F) (old : ℕ) (c : Cell fl fb)
        → c.adders ≡ before ++ adder fl fb delta (Phase.loaded old) ∷ after
        → Keeps start c (compare_and_swap fl fb before delta old after c) 0
    unfolding compare_and_swap
    swap-Keeps before after delta old c at_call = elim (Bool-cases (c.bits == old)) [
      | inl same ↦ rw same record {
        counts = omega (
          arith,
          ap length at_call,
          length-append before (adder fl fb delta (Phase.loaded old) ∷ after),
          length-append before after,
          length-append c.added (delta ∷ []),
        );
        stays = λ h. record {
          sums =
              restores (add_f (fb.from_bits old) delta)
              ∙ ap (λ v. add_f v delta) (ap fb.from_bits (sym (==→eq c.bits old same)) ∙ h.sums)
              ∙ sym (sum_from-append start c.added delta);
        };
      }
      | inr other ↦ rw other record {
        counts = omega (
          arith,
          ap length at_call,
          length-append before (adder fl fb delta (Phase.loaded old) ∷ after),
          length-append before (adder fl fb delta Phase.starting ∷ after),
        );
        stays = λ h. record { sums = h.sums };
      }
    ]

    step-Keeps : {a b : Cell fl fb} (step : AddStep fl fb a b) → Keeps start a b (calls_in step)
    unfolding calls_in
    step-Keeps (AddStep.called delta c) = record {
      counts = omega arith;
      stays = λ h. record { sums = h.sums };
    }
    step-Keeps (AddStep.loads before after delta c at_call) = record {
      counts = omega (
        arith,
        ap length at_call,
        length-append before (adder fl fb delta Phase.starting ∷ after),
        length-append before (adder fl fb delta (Phase.loaded c.bits) ∷ after),
      );
      stays = λ h. record { sums = h.sums };
    }
    step-Keeps (AddStep.swaps before after delta old c at_call) =
        swap-Keeps before after delta old c at_call

    steps-Keeps : {a b : Cell fl fb} (run : AddSteps fl fb a b) → Keeps start a b (calls run)
    unfolding calls
    steps-Keeps (AddSteps.done c) = record { counts = omega arith; stays = λ h. h }
    steps-Keeps (AddSteps.then_step run step) =
        let before = steps-Keeps run in
        let after = step-Keeps step in
        record {
          counts = omega (arith, before.counts, after.counts);
          stays = λ h. after.stays (before.stays h);
        }

  -- In every interleaving of calls of Add on a cell that starts with the given bits, the value of the
  -- cell is what adding the deltas of the calls that have returned gives, one after another, and each
  -- call has returned or is still running: none is added twice or lost.
  pub steps-IsSum :
      ((x : F) → fb.from_bits (fb.to_bits x) ≡ x)
      → (bits : ℕ) (c : Cell fl fb)
      → (run : AddSteps fl fb (record { bits = bits; adders = []; added = [] }) c)
      → (fb.from_bits c.bits ≡ sum_from (fb.from_bits bits) c.added)
        × (length c.added + length c.adders ≡ calls run)
  unfolding sum_from
  steps-IsSum restores bits c run =
      let keeps = steps-Keeps restores (fb.from_bits bits) run in
      ((keeps.stays (record { sums = refl })).sums, omega (arith, keeps.counts))
