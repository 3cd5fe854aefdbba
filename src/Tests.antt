-- ===== src/Tests.antt =====
-- Concrete states and messages, and what the operations do on them.
mod Data
mod Wire
mod Sending
mod Session
mod Padding
mod Options
mod Convert
mod Discovery
mod Fragments
mod Calls
mod Startup
pub mod Incoming
