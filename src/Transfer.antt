-- ===== src/Transfer.antt =====
-- The file transfer over datagrams of Lab/8/src: the archive that is compressed and sent, the packets
-- of the client and the state of the server. Memory is little-endian.
pub mod Archive
pub mod Packets
pub mod Pieces
pub mod Receiver
pub mod Round
pub mod System
mod Tests
