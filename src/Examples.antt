-- ===== src/Examples.antt =====
-- Runs on concrete inputs: a checksum and a hash map to instantiate the parameters with, and each
-- result on a small database.
mod Params
mod Records
mod Loggers
mod Engines
mod Reopened
mod Restarted
mod Workers
mod Sessions
mod Calls
mod Races
mod Closed
mod Bounded
mod Settings
mod Replayed
pub mod Survived
pub mod Client
pub mod Noted
pub mod Crashed
