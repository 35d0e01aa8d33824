-- ===== src/ClientHello.antt =====
-- oracle/clienthello.py: a TLS record becomes the fields of its ClientHello, and these a fingerprint.
pub mod Grease
pub mod Known
pub mod Parse
pub mod Ja
pub mod Fingerprint
pub mod Termination
pub mod Order
