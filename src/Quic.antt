-- ===== src/Quic.antt =====
-- oracle/quic.py: from the datagrams of a QUIC handshake to a TLS record with its ClientHello.
pub mod Varint
pub mod Frames
pub mod Reassemble
pub mod Whole
pub mod Initial
