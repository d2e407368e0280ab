-- ===== src/Control/Pipe.antt =====
-- The messages on the control pipe: AudioPlaybackConnector2/src/control/CommandPipeIo.cpp. The children
-- are the transfer of bytes, and what is read of what was written.
pub mod Wire
pub mod Messages
pub mod Transfer
pub mod RoundTrip
pub mod Answers
pub mod Taken
pub mod Exact
mod Examples
