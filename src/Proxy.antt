-- ===== src/Proxy.antt =====
-- The package proxy.
pub mod Types
pub mod FrameCounter
pub mod Capture
pub mod Payload
pub mod Header
pub mod Detect
pub mod Status
pub mod Serve
pub mod Listen
pub mod Wire
pub mod Toy
mod Runs
