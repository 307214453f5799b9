-- ===== src/Dnsd.antt =====
-- The name server of Homework/2/dnsd.
pub mod Result
pub mod Word
pub mod Dn
pub mod Record
pub mod Zone
pub mod Scan
pub mod Load
pub mod Header
pub mod Server
mod Tests
mod LoadTests
