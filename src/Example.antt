-- ===== src/Example.antt =====
-- The programs under example/.
pub mod Server
pub mod Client
mod Runs
