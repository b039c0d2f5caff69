-- ===== src/Tests.antt =====
-- The witnesses.
mod Codes
mod Encoders
mod Journals
mod RunDirs
mod Ledgers
mod Reviews
mod Records
mod GateRuns
mod LockRuns
mod PacketFiles
mod BlobFiles
mod Configs
mod Collections
