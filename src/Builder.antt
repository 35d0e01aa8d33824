-- ===== src/Builder.antt =====
-- oracle/chbuild.py: a profile becomes the bytes of a TLS record with a ClientHello.
pub mod Vec
pub mod Draw
pub mod Regrease
pub mod Ech
pub mod KeyShare
pub mod Permute
pub mod Padding
pub mod Assemble
pub mod Build
pub mod Packing
pub mod Ending
