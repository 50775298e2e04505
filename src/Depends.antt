-- ===== src/Depends.antt =====
-- stratae/depends: providers and their overrides, and the injection of dependencies.
pub mod Overriding
pub mod Injection
mod Tests
