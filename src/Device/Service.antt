-- ===== src/Device/Service.antt =====
-- `DeviceService` (AudioPlaybackConnector2/include/core/DeviceService.hpp and
-- AudioPlaybackConnector2/src/core/DeviceService.cpp): the sessions of all devices. Every operation and
-- callback is one task of the service's serialized queue, so each is one function of the state.
pub mod Data
pub mod Publish
pub mod Commands
pub mod Policy
pub mod Power
pub mod World
mod Moves
mod Pieces
mod Tasks
mod Policies
mod Transitions
mod Every
pub mod Histories
pub mod Outcomes
pub mod Supersede
mod Examples
