-- ===== src/Hid.antt =====
-- The HID framing of firmware/app/src: HidChunker.hpp and HidReassembler.hpp.
pub mod Report
pub mod Chunker
pub mod Reassembler
pub mod Bounds
pub mod Framing
pub mod RoundTrip
pub mod Strays
mod Tests
