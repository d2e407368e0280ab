-- ===== src/Device.antt =====
-- The policies that decide how a device's connection is kept.
pub mod Reconnect
pub mod Session
pub mod Service
mod Examples
