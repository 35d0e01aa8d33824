-- ===== src/Match.antt =====
-- oracle/match.py: which profile of the registry a fingerprint is.
pub mod Norm
pub mod Matcher
pub mod Answers
pub mod Identify
pub mod Equal
