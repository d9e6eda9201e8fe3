-- ===== src/Journey/Recovery.antt =====
-- journey/recovery.go and the retries of journey/executor.go: the attempts at a call, then its recovery
-- policy. What runs an attempt, a fallback edge and the children of a node are arguments.
pub mod Outcomes
use xk6_otel_gen.Prelude.{
  ℕ, zero, suc, Bool, true, false, Option, none, some, List, [], ◌∷◌, ◌++◌, ◌==◌, str_eq,
  if◌then◌else◌,
}
use xk6_otel_gen.Prelude.Int.{pos, pos_part, ltb_ℤ, add_64, ◌+ℤ◌}
use xk6_otel_gen.Topology.Enums.{ExhaustedAction}
use xk6_otel_gen.Topology.Types.{Edge, Duration, EdgeRef, RecoveryPolicy}
use xk6_otel_gen.Journey.World.{Exec, return, ◌>>=◌}
use xk6_otel_gen.Journey.Outcome.{
  Outcome, zero_outcome, retry_backoff_delay, cap_latency_to_timeout, times_out,
  apply_timeout_failure, should_cascade_children,
}
use xk6_otel_gen.Journey.Telemetry.{Instant}

-- What follows the fallbacks that all failed.
unfoldable pub exhaust : ExhaustedAction → Outcome → Outcome
exhaust ExhaustedAction.return_default out = record out {
  success = true;
  status_code = pos 200;
  error_type = "";
  default_used = true;
}
exhaust ExhaustedAction.succeed_silently out = record out {
  success = true;
  status_code = pos 200;
  error_type = "";
  silently_succeeded = true;
}
exhaust _ out = record out { success = false }

-- How the loop over the attempts ends: on a success, or with the last failure and the time spent.
pub data Attempted : Type 0 where
  succeeded : Outcome → Attempted
  failed : Outcome → Duration → Attempted

module _ {F : Type 0} where
  abbrev pub delay_before : Option (Edge F) → ℕ → Duration
  delay_before none n = pos 0
  delay_before (some edge) n = retry_backoff_delay edge n

  -- The number of attempts.
  abbrev pub attempts_of : Option (Edge F) → ℕ
  attempts_of none = 1
  attempts_of (some edge) =
      pos_part (if ltb_ℤ (pos 0) edge.retries then add_64 (pos 1) edge.retries else pos 1)

  -- What becomes of the last failure: the timeout of the whole sequence.
  unfoldable pub time_limited : Option (Edge F) → Outcome → Duration → Outcome
  unfolding cap_latency_to_timeout
  time_limited none final total = record final { latency = total }
  time_limited (some edge) final total =
      let capped = record final { latency = cap_latency_to_timeout (some edge) total } in
      if times_out edge total then apply_timeout_failure edge capped else capped

  abbrev pub policy_of : Option (Edge F) → Option RecoveryPolicy
  policy_of none = none
  policy_of (some edge) = edge.on_failure

  -- `attempt_loop edge single start left attempt total final` makes at most `left` further attempts.
  unfoldable pub attempt_loop :
      {W E : Type 0}
      → Option (Edge F)
      → (Instant → Exec W E Outcome)
      → Instant
      → ℕ
      → ℕ
      → Duration
      → Outcome
      → Exec W E Attempted
  unfolding add_64
  attempt_loop edge single start zero attempt total final = return (failed final total)
  attempt_loop edge single start (suc left) attempt total final =
      let before = if attempt == 0 then total else add_64 total (delay_before edge attempt) in
      do
        o ← single (start +ℤ before)
        let after_ = add_64 before o.latency
        if o.success
            then return (succeeded (record o { latency = after_ }))
            else if str_eq o.error_type "context_canceled"
            then return (failed o after_)
            else attempt_loop edge single start left (suc attempt) after_ o

module _ {W E : Type 0} (execute_fallback : Option EdgeRef → Instant → Exec W E Outcome)
    (start : Instant) where
  -- The loop over the fallbacks, then what is done once they are exhausted.
  unfoldable pub recover : List (Option EdgeRef) → ExhaustedAction → Outcome → Exec W E Outcome
  unfolding add_64 exhaust
  recover [] action out = return (exhaust action out)
  recover (fallback ∷ fallbacks) action out = do
    o ← execute_fallback fallback (start +ℤ out.latency)
    let out' = record out { latency = add_64 out.latency o.latency }
    if o.success
        then return (record out' {
          success = true;
          status_code = o.status_code;
          error_type = "";
          fallback_used = fallback;
        })
        else recover fallbacks action
            (record out' { fallback_attempts = out'.fallback_attempts ++ fallback ∷ [] })

  -- applyRecoveryAt with the edge's policy.
  unfoldable pub apply_recovery : RecoveryPolicy → Outcome → Exec W E Outcome
  unfolding recover
  apply_recovery policy primary =
      recover policy.fallback policy.on_exhausted (record primary { primary_failed = true })

module _ {W E : Type 0} (execute_fallback : Option EdgeRef → Instant → Exec W E Outcome)
    (cascade_children : Outcome → Instant → Exec W E Unit) where
  unfoldable pub recovered : Option RecoveryPolicy → Outcome → Instant → Exec W E Outcome
  recovered none final start = return final
  recovered (some policy) final start = apply_recovery execute_fallback start policy final

  unfoldable pub cascade : Outcome → Instant → Exec W E Unit
  cascade final start =
      if should_cascade_children final
      then cascade_children final (start +ℤ final.latency)
      else return tt

  unfoldable pub settle : {F : Type 0} → Option (Edge F) → Instant → Attempted → Exec W E Outcome
  settle edge start (succeeded o) = return o
  settle edge start (failed final total) = do
    out ← recovered (policy_of edge) (time_limited edge final total) start
    _ ← cascade out start
    return out

  unfoldable pub execute_attempt_sequence :
      {F : Type 0} → (Instant → Exec W E Outcome) → Option (Edge F) → Instant → Exec W E Outcome
  unfolding settle recovered cascade attempt_loop
  execute_attempt_sequence single edge start = do
    attempted ← attempt_loop edge single start (attempts_of edge) 0 (pos 0) zero_outcome
    settle edge start attempted
