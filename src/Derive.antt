-- ===== src/Derive.antt =====
-- oracle/derive.py: the profile of a platform that was not captured, from one that was.
pub mod Delta
pub mod Dropped
pub mod Rule
pub mod Verified
