-- ===== src/K6Output.antt =====
-- The package k6output: its arguments, and the queue between k6 and the goroutine that flushes.
pub mod Params
pub mod Queue
