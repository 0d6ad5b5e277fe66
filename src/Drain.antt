-- ===== src/Drain.antt =====
-- embed_drain.rs: the worker that sends pending messages to the embedding sidecar.
pub mod Text
pub mod Guards
pub mod Worker
mod Tests
