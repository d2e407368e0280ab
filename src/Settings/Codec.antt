-- ===== src/Settings/Codec.antt =====
-- The settings file's format: AudioPlaybackConnector2/src/core/SettingsCodec.cpp. The children are
-- JSON values, the two decoders, the encoder, and what is proved of them.
pub mod Json
pub mod Read
pub mod Decode
mod Ascii
pub mod Encode
pub mod Legacy
mod Documents
pub mod RoundTrip
pub mod Reload
mod Fields
pub mod Switches
mod Examples
