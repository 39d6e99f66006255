-- ===== src/Amf.antt =====
-- The AMF3 codec of rbtlib (amf_common.c, encoder.c, decoder.c): script values on the wire.
pub mod Value
pub mod Ints
pub mod Encoder
pub mod Tree
pub mod Decoder
pub mod RoundTrip
mod Tests
mod Examples
