-- ===== src/Store.antt =====
-- storage.rs: the tables of the database and the operations on them.
pub mod Watchdog
pub mod Queue
pub mod Db
pub mod Cursors
pub mod Jobs
pub mod Messages
