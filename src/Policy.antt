-- ===== src/Policy.antt =====
-- src/policy.rs: the filter from a profile, a policy file and the environment.
pub mod Report
pub mod Document
pub mod Environment
pub mod Compat
pub mod Loader
pub mod Merge
