-- ===== src/Exporter.antt =====
-- The package exporter: the configuration of a pipeline.
pub mod Config
pub mod Endpoints
