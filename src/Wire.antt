-- ===== src/Wire.antt =====
-- The byte stream of a connection: packets, the version handshake, and the loop that reads both.
pub mod Frame
pub mod Handshake
pub mod Reader
