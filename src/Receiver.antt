-- ===== src/Receiver.antt =====
-- src/receiver_config.hpp and receiver_config.cpp: the settings, the commands, the replies and the
-- configuration session of `ReceiverConfigurator`.
mod Tests
pub mod Example
pub mod Settings
pub mod Commands
pub mod Replies
pub mod Link
pub mod Session
pub mod Script
pub mod Sending
pub mod Valid
pub mod Apply
pub mod Login
pub mod Stop
