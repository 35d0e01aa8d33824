-- ===== src/UaMap.antt =====
-- oracle/uamap.py: from a User-Agent to the profile that a connection is to have.
pub mod UserAgent
pub mod Table
pub mod Lookup
pub mod Strict
pub mod Exact
pub mod Bounds
pub mod Alias
pub mod Build
pub mod Rows
pub mod Mapped
