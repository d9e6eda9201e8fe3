-- ===== src/Topology/Validate.antt =====
-- topology/validate.go: the structural rules R-STR-1 to R-STR-8 and the domain rules. Iteration over a
-- map goes through its entries in the order of the list, which is arbitrary.
pub mod Structure
pub mod Quiet
pub mod Domain
pub mod Ranges
pub mod Targets
pub mod Whole
