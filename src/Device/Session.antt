-- ===== src/Device/Session.antt =====
-- `DeviceSession` (AudioPlaybackConnector2/include/core/DeviceSession.hpp and
-- AudioPlaybackConnector2/src/core/DeviceSession.cpp): the connection of one device. Every operation
-- and callback runs on the session's serialized executor, so each is one function of the state.
pub mod Data
pub mod Retry
pub mod Close
pub mod Connect
pub mod Events
pub mod Policy
pub mod Control
pub mod Power
pub mod World
pub mod Safety
pub mod Retrying
pub mod Closing
pub mod Starts
pub mod Continues
pub mod Steps
pub mod Barriers
pub mod Operations
pub mod Commands
pub mod Histories
pub mod Stranded
