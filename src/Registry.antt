-- ===== src/Registry.antt =====
-- service.rs: `ServiceRegistry`.
pub mod Defs
pub mod Invariant
pub mod Steps
pub mod Lookup
