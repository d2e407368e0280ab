-- ===== src/Settings.antt =====
-- The persistent settings: AudioPlaybackConnector2/include/core/SettingsData.hpp and
-- AudioPlaybackConnector2/src/core/SettingsStore.cpp, with the validity rule of SettingsCodec.cpp.
pub mod Data
pub mod Codec
pub mod Persistable
pub mod Lists
pub mod Edit
pub mod Request
pub mod Unique
pub mod KeepsPersistable
pub mod Changed
pub mod History
pub mod Store
mod Examples
