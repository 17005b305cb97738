-- ===== src/Composition.antt =====
-- interop/core/composition: from a composed manifest to the legs of a run.
pub mod Addressing
pub mod Legs
pub mod Routing
pub mod References
pub mod Rules
pub mod Planning
