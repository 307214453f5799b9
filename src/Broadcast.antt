-- ===== src/Broadcast.antt =====
-- The file transfer by broadcast of Lab/10/Broadcast-XDP-File-Transfer/src.
pub mod Packet
pub mod Loop
mod Tests
