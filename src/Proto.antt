-- ===== src/Proto.antt =====
-- Protobuf wire format, QcProtobuf.hpp.
pub mod Writer
pub mod Reader
pub mod Varint
pub mod Fields
pub mod RoundTrip
mod Tests
