-- ===== src/Control.antt =====
-- The command-line control surface.
pub mod ActionGate
pub mod Protocol
pub mod Pipe
pub mod Targets
mod Examples
