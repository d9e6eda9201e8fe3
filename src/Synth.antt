-- ===== src/Synth.antt =====
-- The package synth: the accumulators of observable metrics.
pub mod Observable
