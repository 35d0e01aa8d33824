-- ===== src/Tests.antt =====
-- Concrete runs of the code, and for each theorem with conditions an input at which they hold.
mod Samples
mod Parser
mod Permutation
mod Connection
mod Datagrams
mod Registry
mod Derived
mod Agents
mod Session
mod Sources
mod Mapping
