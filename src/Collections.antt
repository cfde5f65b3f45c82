-- ===== src/Collections.antt =====
-- Rust's `HashSet` and `HashMap`, as lists in an iteration order that no theorem fixes.
pub mod Key
pub mod HashSet
pub mod HashMap
