-- ===== src/Security.antt =====
-- src/security.rs: the policy decision point.
pub mod Pattern
pub mod Rule
pub mod Rules
pub mod Profile
pub mod Filter
pub mod Percent
pub mod Segments
pub mod Version
pub mod Normalize
pub mod Body
pub mod Request
