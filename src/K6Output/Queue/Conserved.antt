-- ===== src/K6Output/Queue/Conserved.antt =====
-- No sample of k6output/output.go is lost without being counted, and the queue stays in its bounds.
use xk6_otel_gen.Prelude.{
  ℕ, ◌+◌, ◌≡◌, ◌≤◌, refl, sym, ap, ◌∙◌, List, [], ◌∷◌, ◌++◌, length, length-append, append_assoc,
  append-nil, ltb, leb, arith, Bool-cases, inl, inr,
}
use xk6_otel_gen.K6Output.Queue.{
  Output, Pushing, QueueStep, QueueSteps, push, drop_oldest, push_again, flush, take, drain_queue,
  max_flush_batch_size,
}

module _ {S : Type 0} where
  abbrev held : Pushing S → ℕ
  held Pushing.idle = 0
  held (Pushing.full s) = 1
  held (Pushing.retrying s) = 1

  -- The samples that are somewhere: emitted, in the batch, in the queue, in the hands of tryPush, or
  -- counted as dropped.
  abbrev pub total : Output S → ℕ
  total o = length o.emitted + length o.batch + length o.queue + held o.pushing + o.drops

  -- The pushes among the steps.
  unfoldable pub pushes_in : {a b : Output S} → QueueStep a b → ℕ
  pushes_in (QueueStep.pushed s o e) = 1
  pushes_in _ = 0

  unfoldable pub pushes : {a b : Output S} → QueueSteps a b → ℕ
  unfolding pushes_in
  pushes (QueueSteps.done o) = 0
  pushes (QueueSteps.then_step run step) = pushes run + pushes_in step

  -- A step adds what it pushes to the total, keeps the capacity, and keeps the queue within it.
  record Keeps (a b : Output S) (added : ℕ) : Type 0 where
    adds : total b ≡ total a + added
    same_capacity : b.capacity ≡ a.capacity
    in_bounds : length a.queue ≤ a.capacity → length b.queue ≤ b.capacity

  push-Keeps : (s : S) (o : Output S) → o.pushing ≡ Pushing.idle → Keeps o (push s o) 1
  unfolding push
  push-Keeps s o e = elim (Bool-cases (ltb (length o.queue) o.capacity)) [
    | inl room ↦ rw room record {
      adds = omega (arith, ap held e, length-append o.queue (s ∷ []));
      same_capacity = refl;
      in_bounds = λ h. ground (arith, room, length-append o.queue (s ∷ []));
    }
    | inr no_room ↦
        rw no_room
          record { adds = omega (arith, ap held e); same_capacity = refl; in_bounds = λ h. h }
  ]

  drop_oldest-Keeps :
      (s : S) (q : List S) (o : Output S)
      → o.pushing ≡ Pushing.full s
      → o.queue ≡ q
      → Keeps o (drop_oldest s q o) 0
  unfolding drop_oldest
  drop_oldest-Keeps s [] o e is_q = record {
    adds = omega (arith, ap held e);
    same_capacity = refl;
    in_bounds = λ h. h;
  }
  drop_oldest-Keeps s (oldest ∷ rest) o e is_q = record {
    adds = omega (arith, ap held e, ap length is_q);
    same_capacity = refl;
    in_bounds = λ h. omega (arith, h, ap length is_q);
  }

  push_again-Keeps :
      (s : S) (o : Output S) → o.pushing ≡ Pushing.retrying s → Keeps o (push_again s o) 0
  unfolding push_again
  push_again-Keeps s o e = elim (Bool-cases (ltb (length o.queue) o.capacity)) [
    | inl room ↦ rw room record {
      adds = omega (arith, ap held e, length-append o.queue (s ∷ []));
      same_capacity = refl;
      in_bounds = λ h. ground (arith, room, length-append o.queue (s ∷ []));
    }
    | inr no_room ↦
        rw no_room
          record { adds = omega (arith, ap held e); same_capacity = refl; in_bounds = λ h. h }
  ]

  flush-Keeps : (o : Output S) → Keeps o (flush o) 0
  unfolding flush
  flush-Keeps o = record {
    adds = omega (arith, length-append o.emitted o.batch);
    same_capacity = refl;
    in_bounds = λ h. h;
  }

  take-Keeps :
      (s : S) (rest : List S) (o : Output S) → o.queue ≡ s ∷ rest → Keeps o (take s rest o) 0
  unfolding take flush
  take-Keeps s rest o e =
      elim (Bool-cases (leb max_flush_batch_size (length (o.batch ++ s ∷ [])))) [
        | inl flushes ↦ rw flushes record {
          adds = omega (
            arith,
            ap length e,
            length-append o.batch (s ∷ []),
            length-append o.emitted (o.batch ++ s ∷ []),
          );
          same_capacity = refl;
          in_bounds = λ h. omega (arith, h, ap length e);
        }
        | inr waits ↦ rw waits record {
          adds = omega (arith, ap length e, length-append o.batch (s ∷ []));
          same_capacity = refl;
          in_bounds = λ h. omega (arith, h, ap length e);
        }
      ]

  step-Keeps : {a b : Output S} (step : QueueStep a b) → Keeps a b (pushes_in step)
  unfolding pushes_in
  step-Keeps (QueueStep.pushed s o e) = push-Keeps s o e
  step-Keeps (QueueStep.dropped s o e) = drop_oldest-Keeps s o.queue o e refl
  step-Keeps (QueueStep.pushed_again s o e) = push_again-Keeps s o e
  step-Keeps (QueueStep.taken s rest o e) = take-Keeps s rest o e
  step-Keeps (QueueStep.flushed o) = flush-Keeps o

  steps-Keeps : {a b : Output S} (run : QueueSteps a b) → Keeps a b (pushes run)
  unfolding pushes
  steps-Keeps (QueueSteps.done o) = record {
    adds = omega arith;
    same_capacity = refl;
    in_bounds = λ h. h;
  }
  steps-Keeps (QueueSteps.then_step run step) =
      let before = steps-Keeps run in
      let after = step-Keeps step in
      record {
        adds = omega (arith, before.adds, after.adds);
        same_capacity = after.same_capacity ∙ before.same_capacity;
        in_bounds = λ h. after.in_bounds (before.in_bounds h);
      }

  -- In every interleaving of pushes with the loop that flushes, from an output whose queue is within
  -- its capacity: the queue is within that capacity in the end, and the samples that are emitted, in
  -- the batch, in the queue, in the hands of tryPush or counted as dropped are those of the beginning
  -- and one for each push.
  pub queue_conserved :
      {a b : Output S} (run : QueueSteps a b)
      → length a.queue ≤ a.capacity
      → (length b.queue ≤ a.capacity) × (total b ≡ total a + pushes run)
  queue_conserved run within =
      let keeps = steps-Keeps run in
      (omega (arith, keeps.in_bounds within, keeps.same_capacity), keeps.adds)

  take-emits :
      (s : S) (rest : List S) (o : Output S)
      → ((take s rest o).emitted ++ (take s rest o).batch ≡ (o.emitted ++ o.batch) ++ s ∷ [])
        × ((take s rest o).drops ≡ o.drops)
        × ((take s rest o).queue ≡ rest)
  unfolding take flush
  take-emits s rest o = elim (Bool-cases (leb max_flush_batch_size (length (o.batch ++ s ∷ [])))) [
    | inl flushes ↦ rw flushes (
      append-nil (o.emitted ++ (o.batch ++ s ∷ [])) ∙ sym (append_assoc o.emitted o.batch (s ∷ [])),
      refl,
      refl,
    )
    | inr waits ↦ rw waits (sym (append_assoc o.emitted o.batch (s ∷ [])), refl, refl)
  ]

  -- Once nothing is pushed any more, the loop that drains the queue ends, with the queue and the batch
  -- empty, everything that was in them emitted in the order of the queue, and nothing dropped.
  pub drain_queue-emits :
      (q : List S) (o : Output S)
      → o.queue ≡ q
      → ((drain_queue q o).queue ≡ [])
        × ((drain_queue q o).batch ≡ [])
        × ((drain_queue q o).emitted ≡ (o.emitted ++ o.batch) ++ q)
        × ((drain_queue q o).drops ≡ o.drops)
  unfolding drain_queue flush
  drain_queue-emits [] o e = (e, refl, sym (append-nil (o.emitted ++ o.batch)), refl)
  drain_queue-emits (s ∷ rest) o e =
      let (moved, dropped, left) = take-emits s rest o in
      let (queue, batch, emitted, drops) = drain_queue-emits rest (take s rest o) left in
      (
        queue,
        batch,
        emitted
            ∙ ap (λ front. front ++ rest) moved
            ∙ append_assoc (o.emitted ++ o.batch) (s ∷ []) rest,
        drops ∙ dropped,
      )
