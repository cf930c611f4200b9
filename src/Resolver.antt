-- ===== src/Resolver.antt =====
-- resolver/: names and the places where they are bound.
pub mod Scope
pub mod Collect
pub mod References
pub mod Bodies
pub mod Config
pub mod Resolve
