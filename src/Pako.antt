-- ===== src/Pako.antt =====
-- The two unpackers of Lab/2/PAKO-File-Unpacker: unpacker-struct.c and unpacker.c.
pub mod Checksum
pub mod Structs
pub mod Plain
pub mod Agree
mod Tests
