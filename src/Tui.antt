-- ===== src/Tui.antt =====
-- The package tui.
pub mod TapEvent
pub mod Names
pub mod Body
pub mod Format
pub mod Env
pub mod Rows
pub mod Analytics
pub mod Export
pub mod Toy
mod Runs
pub mod Model
pub mod View
pub mod Resend
pub mod Connect
pub mod Copy
pub mod Command
