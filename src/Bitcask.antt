-- ===== src/Bitcask.antt =====
-- src/BitcaskImpl.cpp: the engine.
pub mod Engine
pub mod Stables
pub mod View
pub mod Reads
pub mod Batch
pub mod Publish
pub mod Placed
pub mod Commit
pub mod Room
pub mod Rotation
pub mod Rolled
pub mod Rollover
pub mod Bounds
pub mod Misplaced
pub mod Restore
pub mod Fresh
pub mod Scans
pub mod LastFile
pub mod Loaded
pub mod Ends
pub mod Foreign
pub mod Restart
pub mod OneFile
pub mod Reopen
pub mod Replay
pub mod Numbers
pub mod Listed
pub mod Tickets
pub mod Worker
pub mod Turns
pub mod Served
pub mod Api
pub mod Calls
pub mod Shutdown
pub mod Durable
pub mod Race
pub mod Alone
pub mod Between
pub mod Interleaved
pub mod Linear
pub mod Frame
pub mod Session
pub mod Survives
pub mod Logs
pub mod Fitting
pub mod Whole
pub mod Sees
pub mod Sound
pub mod Idle
pub mod Client
pub mod Single
pub mod Serving
pub mod Closing
pub mod Cut
pub mod Crash
pub mod Prefixes
pub mod Recovers
pub mod Restored
pub mod Places
pub mod Placing
pub mod Written
pub mod Handles
pub mod Directory
