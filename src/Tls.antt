-- ===== src/Tls.antt =====
-- oracle/tls13.py: a client of TLS 1.3 that sends the ClientHello of a profile.
pub mod Library
pub mod Schedule
pub mod Client
pub mod Stream
pub mod Record
pub mod Utf8
pub mod ServerHello
pub mod Flight
pub mod Handshake
pub mod Session
pub mod Pieces
pub mod Whole
pub mod Delivery
pub mod Draining
pub mod Fields
pub mod Ending
pub mod Termination
