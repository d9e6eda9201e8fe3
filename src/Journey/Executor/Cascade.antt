-- ===== src/Journey/Executor/Cascade.antt =====
-- What a node does below an outcome that failed.
use xk6_otel_gen.Prelude.{true, false}
use xk6_otel_gen.Prelude.Int.{pos}
use xk6_otel_gen.Journey.World.{World}
use xk6_otel_gen.Journey.Outcome.{Outcome, outcome}

-- The outcome of a node that is skipped since its parent failed.
abbrev pub skipped : Outcome → Outcome
skipped parent = record (outcome false parent.status_code parent.error_type (pos 0)) {
  cascaded = true;
}
