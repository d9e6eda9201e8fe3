-- ===== src/Topology.antt =====
-- The package topology: its data model, the graph of its operations, the validation of a
-- schema, and its reading and writing.
pub mod Enums
pub mod Attributes
pub mod Types
pub mod Float
pub mod Errors
pub mod Graph
pub mod Dag
pub mod Faults
pub mod Validate
pub mod Tokens
pub mod Raw
pub mod Parse
pub mod Marshal
pub mod Equal
pub mod Lint
