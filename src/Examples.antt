-- ===== src/Examples.antt =====
-- The theorems at concrete inputs.
pub mod Cursors
mod Lists
pub mod Delivery
mod Runs
mod Running
mod Starting
pub mod Streams
pub mod Start
pub mod Sessions
mod Calls
mod Tokens
mod Windows
mod Probes
mod Draining
