-- ===== src/App.antt =====
-- The application's scheduling policies and coordination state.
pub mod Backoff
pub mod StartupRequest
pub mod Fence
pub mod Schedule
pub mod ResourcePressure
pub mod PowerTransition
mod Examples
