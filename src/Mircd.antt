-- ===== src/Mircd.antt =====
-- The IRC daemon of Homework/1/mircd.
pub mod Wire
pub mod State
pub mod Monad
pub mod Client
pub mod Channel
pub mod Controller
pub mod Dispatch
pub mod Server
pub mod Live
mod Tests
mod LiveTests
