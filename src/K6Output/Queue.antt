-- ===== src/K6Output/Queue.antt =====
-- The queue of k6output/output.go between k6, which pushes samples, and the goroutine of flushLoop.
-- An operation of the channel is one step; the steps of the two sides interleave in any order.
pub mod Conserved
use xk6_otel_gen.Prelude.{
  ℕ, suc, ◌+◌, ◌≡◌, ◌<◌, ◌≤◌, Bool, Option, none, some, List, [], ◌∷◌, ◌++◌, length, ltb, leb,
  if◌then◌else◌,
}

-- maxFlushBatchSize
abbrev pub max_flush_batch_size : ℕ
max_flush_batch_size = 1024

-- Where tryPush is: between calls, after the first select found the queue full, or after the second.
pub data Pushing (S : Type 0) : Type 0 where
  idle : Pushing S
  full : S → Pushing S
  retrying : S → Pushing S

pub record Output (S : Type 0) : Type 0 where
  pub capacity : ℕ
  pub queue : List S
  pub drops : ℕ
  pub pushing : Pushing S
  pub batch : List S
  pub emitted : List S

module _ {S : Type 0} where
  abbrev has_room : Output S → Bool
  has_room o = ltb (length o.queue) o.capacity

  abbrev send : S → Output S → Output S
  send s o = record o { queue = o.queue ++ s ∷ []; pushing = Pushing.idle }

  -- The first select of tryPush.
  unfoldable pub push : S → Output S → Output S
  push s o = if has_room o then send s o else record o { pushing = Pushing.full s }

  -- The second select: the oldest sample is dropped, if there is one.
  unfoldable pub drop_oldest : S → List S → Output S → Output S
  drop_oldest s [] o = record o { pushing = Pushing.retrying s }
  drop_oldest s (oldest ∷ rest) o = record o {
    queue = rest;
    drops = suc o.drops;
    pushing = Pushing.retrying s;
  }

  -- The third select: without room, the sample counts as dropped by AddMetricSamples.
  unfoldable pub push_again : S → Output S → Output S
  push_again s o =
      if has_room o then send s o else record o { drops = suc o.drops; pushing = Pushing.idle }

  -- The flush of flushLoop.
  unfoldable pub flush : Output S → Output S
  flush o = record o { emitted = o.emitted ++ o.batch; batch = [] }

  abbrev flush_if : Bool → Output S → Output S
  unfolding flush
  flush_if full_batch o = if full_batch then flush o else o

  -- case sample := <-o.queue
  unfoldable pub take : S → List S → Output S → Output S
  unfolding flush
  take s rest o =
      flush_if (leb max_flush_batch_size (length (o.batch ++ s ∷ [])))
        (record o { queue = rest; batch = o.batch ++ s ∷ [] })

  -- One step of one side.
  pub data QueueStep : Output S → Output S → Type 0 where
    pushed : (s : S) (o : Output S) → o.pushing ≡ Pushing.idle → QueueStep o (push s o)
    dropped :
        (s : S) (o : Output S) → o.pushing ≡ Pushing.full s → QueueStep o (drop_oldest s o.queue o)
    pushed_again :
        (s : S) (o : Output S) → o.pushing ≡ Pushing.retrying s → QueueStep o (push_again s o)
    taken :
        (s : S) (rest : List S) (o : Output S) → o.queue ≡ s ∷ rest → QueueStep o (take s rest o)
    flushed : (o : Output S) → QueueStep o (flush o)

  pub data QueueSteps : Output S → Output S → Type 0 where
    done : (o : Output S) → QueueSteps o o
    then_step : {a b c : Output S} → QueueSteps a b → QueueStep b c → QueueSteps a c

  -- The loop of flushLoop after the context is done, when nothing is pushed: it takes samples until
  -- the queue is empty, and flushes what is left.
  unfoldable pub drain_queue : List S → Output S → Output S
  unfolding take flush
  drain_queue [] o = flush o
  drain_queue (s ∷ rest) o = drain_queue rest (take s rest o)
