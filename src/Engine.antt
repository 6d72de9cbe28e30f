-- ===== src/Engine.antt =====
-- engine_service.hpp and engine_service.cpp: the engine worker, one command, packet or turn at a time.
pub mod State
pub mod Operation
pub mod Finish
pub mod Messages
pub mod Identity
pub mod Clear
pub mod Link
pub mod Run
pub mod Accounts
pub mod Ends
pub mod Safety
pub mod Untouched
pub mod Tame
pub mod TameCommands
pub mod TamePackets
pub mod Epochs
pub mod Retries
pub mod Reported
pub mod Phases
pub mod Scan
pub mod Authority
pub mod Commands
pub mod Turns
pub mod Replies
pub mod Answers
mod Tests
