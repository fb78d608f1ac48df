-- ===== src/Tests.antt =====
-- The theorems at concrete inputs, and the stand-ins for the code outside the program.
pub mod Fixtures
mod Paths
mod Rules
mod Requests
pub mod Layer
mod Relay
pub mod Loading
pub mod Router
mod Process
mod Interleaving
mod Assembly
mod Overlap
pub mod Unit
