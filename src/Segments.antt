-- ===== src/Segments.antt =====
-- `segment` of oracle/segments.py: runs of versions with one fingerprint.
pub mod Runs
pub mod Lossless
pub mod Substitute
pub mod Evidence
pub mod Shown
pub mod Covered
pub mod Captured
pub mod Coherent
