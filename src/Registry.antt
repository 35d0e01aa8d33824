-- ===== src/Registry.antt =====
-- oracle/registry.py: the profiles of all sources, merged by their fingerprints.
pub mod Merge
pub mod Filed
pub mod Found
