-- ===== src/Lifecycle.antt =====
-- stratae/lifecycle: activations of scopes, the resources entered in them, and the functions whose
-- results are cached in them.
pub mod Stack
pub mod Scope
pub mod Inflight
pub mod Wrappers
mod Tests
