-- ===== src/Ntrip.antt =====
-- src/ntrip/ins401_ntrip_client.h and ins401_ntrip_client.cpp: the client for correction data.
mod Tests
pub mod Chunks
pub mod Blocks
pub mod Threads
pub mod Sound
pub mod Steps
pub mod Runs
pub mod Lost
pub mod Reconnect
pub mod Request
pub mod Sending
pub mod Header
pub mod Response
pub mod Answered
pub mod Callback
pub mod Retries
pub mod Forwarding
pub mod Lifecycle
pub mod Addresses
pub mod Untouched
pub mod Connecting
pub mod Marks
pub mod Closing
pub mod SourceTable
pub mod Rows
pub mod Rounds
pub mod MountPoints
