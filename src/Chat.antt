-- ===== src/Chat.antt =====
-- The chat server of Lab/5/Say-Hey!-to-Your-Friend/server.cpp.
pub mod Log
pub mod State
pub mod Who
pub mod Table
pub mod Input
pub mod Counted
pub mod Talk
pub mod Overflow
mod Tests
