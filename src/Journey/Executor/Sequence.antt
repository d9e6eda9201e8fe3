-- ===== src/Journey/Executor/Sequence.antt =====
-- A sequence of attempts with its recovery and its cascade ends if its parts do.
use xk6_otel_gen.Prelude.{ℕ, zero, suc, ◌≡◌, refl, Option, none, some, List, [], ◌∷◌, str_eq}
use mathlib.Core.List.{Memᴰ}
use xk6_otel_gen.Prelude.Int.{pos, ◌+ℤ◌}
use xk6_otel_gen.Topology.Enums.{ExhaustedAction}
use xk6_otel_gen.Topology.Types.{Edge, Duration, EdgeRef, RecoveryPolicy}
use xk6_otel_gen.Journey.World.{Exec}
use xk6_otel_gen.Journey.Outcome.{Outcome, zero_outcome, should_cascade_children}
use xk6_otel_gen.Journey.Telemetry.{Instant, Event}
use xk6_otel_gen.Journey.Recovery.{
  Attempted, succeeded, failed, attempt_loop, recover, apply_recovery, recovered, cascade, settle,
  execute_attempt_sequence, attempts_of, policy_of, time_limited, exhaust,
}
use xk6_otel_gen.Journey.Executor.Spans.{Ends, Ends-return, Ends-bind, Ends-if}

module _ {F W : Type 0} where
  module _ (edge : Option (Edge F)) (single : Instant → Exec W (Event F) Outcome)
      (ends : (start : Instant) → Ends 0 0 (single start)) where
    attempt_loop-Ends :
        (start : Instant) (left attempt : ℕ) (total : Duration) (final : Outcome)
        → Ends 0 0 (attempt_loop edge single start left attempt total final)
    unfolding attempt_loop
    attempt_loop-Ends start zero attempt total final = Ends-return 0 (failed final total)
    attempt_loop-Ends start (suc left) attempt total final = Ends-bind 0 0 0 _ _ (ends _) (λ o.
        Ends-if 0 0 o.success _ _ (Ends-return 0 _) (
          Ends-if 0 0 (str_eq o.error_type "context_canceled") _ _ (Ends-return 0 _)
            (attempt_loop-Ends start left (suc attempt) _ o)))

  module _ (fallback : Option EdgeRef → Instant → Exec W (Event F) Outcome) where
    recover-Ends :
        (start : Instant) (fs : List (Option EdgeRef)) (action : ExhaustedAction) (out : Outcome)
        → ((f : Option EdgeRef) → Memᴰ f fs → (at : Instant) → Ends 0 0 (fallback f at))
        → Ends 0 0 (recover fallback start fs action out)
    unfolding recover
    recover-Ends start [] action out each = Ends-return 0 (exhaust action out)
    recover-Ends start (f ∷ fs) action out each =
        Ends-bind 0 0 0 _ _ (each f (Memᴰ.head refl) _) (λ o.
          Ends-if 0 0 o.success _ _ (Ends-return 0 _)
            (recover-Ends start fs action _ (λ g m at. each g (Memᴰ.tail m) at)))

    -- The fallbacks of a policy end.
    abbrev pub PolicyEnds : Option RecoveryPolicy → Type 0
    PolicyEnds policy =
        (p : RecoveryPolicy)
        → policy ≡ some p
        → (f : Option EdgeRef) → Memᴰ f p.fallback
        → (at : Instant) → Ends 0 0 (fallback f at)

    module _ (children : Outcome → Instant → Exec W (Event F) Unit) where
      recovered-Ends :
          (policy : Option RecoveryPolicy) (final : Outcome) (start : Instant)
          → PolicyEnds policy
          → Ends 0 0 (recovered fallback children policy final start)
      unfolding recovered apply_recovery
      recovered-Ends none final start each = Ends-return 0 final
      recovered-Ends (some p) final start each =
          recover-Ends start p.fallback p.on_exhausted _ (each p refl)

      cascade-Ends :
          ((o : Outcome) (at : Instant) → Ends 0 0 (children o at))
          → (final : Outcome) (start : Instant) → Ends 0 0 (cascade fallback children final start)
      unfolding cascade
      cascade-Ends below final start =
          Ends-if 0 0 (should_cascade_children final) _ _ (below final (start +ℤ final.latency))
            (Ends-return 0 tt)

      settle-Ends :
          ((o : Outcome) (at : Instant) → Ends 0 0 (children o at))
          → (edge : Option (Edge F)) (start : Instant) (attempted : Attempted)
          → PolicyEnds (policy_of edge)
          → Ends 0 0 (settle fallback children edge start attempted)
      unfolding settle
      settle-Ends below edge start (succeeded o) each = Ends-return 0 o
      settle-Ends below edge start (failed final total) each =
          Ends-bind 0 0 0 _ _
            (recovered-Ends (policy_of edge) (time_limited edge final total) start each)
            (λ out. Ends-bind 0 0 0 _ _ (cascade-Ends below out start) (λ u. Ends-return 0 out))

      -- A sequence of attempts ends if each attempt, each fallback of the edge's policy and the
      -- cascade over the children does.
      pub execute_attempt_sequence-Ends :
          (single : Instant → Exec W (Event F) Outcome) (edge : Option (Edge F)) (start : Instant)
          → ((at : Instant) → Ends 0 0 (single at))
          → ((o : Outcome) (at : Instant) → Ends 0 0 (children o at))
          → PolicyEnds (policy_of edge)
          → Ends 0 0 (execute_attempt_sequence fallback children single edge start)
      unfolding execute_attempt_sequence
      execute_attempt_sequence-Ends single edge start ends below each =
          Ends-bind 0 0 0 _ _
            (attempt_loop-Ends edge single ends start (attempts_of edge) 0 (pos 0) zero_outcome)
            (λ attempted. settle-Ends below edge start attempted each)
