-- ===== src/Tcp.antt =====
-- oracle/ja4t.py: JA4T, the fingerprint of a TCP SYN packet.
pub mod Options
pub mod Syn
pub mod Reading
