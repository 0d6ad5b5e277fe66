-- ===== src/Outbound.antt =====
-- outbound.rs and the outbound queue of storage.rs: what is sent, and in which state it is.
pub mod OpKind
pub mod Worker
mod Tests
