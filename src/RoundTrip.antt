-- ===== src/RoundTrip.antt =====
-- oracle/chbuild.py against oracle/clienthello.py: the wire format between builder and parser.
pub mod Wire
pub mod Blocks
pub mod Reading
pub mod Sent
pub mod Build
pub mod Stable
