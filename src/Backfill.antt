-- ===== src/Backfill.antt =====
-- backfill.rs: the worker that fetches the history of a chat page by page.
pub mod Target
pub mod History
pub mod Anchor
pub mod Process
pub mod Worker
mod Tests
