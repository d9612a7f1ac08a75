-- ===== src/Wire.antt =====
-- watermelon-proto/src/util: the byte-level readers that the wire protocol is parsed with.
pub mod Uint
pub mod Spaces
pub mod Lines
