-- ===== src/Future.antt =====
-- header/actor-zeta/detail: promises, futures and the state that they share.
pub mod Flags
pub mod ResultStorage
pub mod SharedState
pub mod States
pub mod Release
pub mod Promise
pub mod Handles
pub mod Coroutine
pub mod Frames
pub mod Method
mod Tests
