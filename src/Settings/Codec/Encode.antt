-- ===== src/Settings/Codec/Encode.antt =====
-- Encode of AudioPlaybackConnector2/src/core/SettingsCodec.cpp.
use audio_playback_connector.Prelude.{
  Bool, not, ◌&&◌, Option, none, some, List, [], ◌∷◌, leb, ◌==◌, if◌then◌else◌, length, ◌>>◌,
  require,
}
use audio_playback_connector.Prelude.Int.{pos}
use audio_playback_connector.Text.{wide, is_empty}
use audio_playback_connector.Text.Utf16.{WString}
use audio_playback_connector.Settings.Data.{
  DeviceSettings, PersistedWindowBounds, RatingPromptData, SettingsData,
}
use audio_playback_connector.Settings.Persistable.{is_persistable}
use audio_playback_connector.Settings.Codec.Json.{
  Bytes, Json, boolean, number, text, array, object, Items, no_items, item, Fields, no_fields,
  JsonLibrary, set, max_settings_file_bytes,
}
use audio_playback_connector.Settings.Codec.Read.{schema_version}
use audio_playback_connector.Settings.Codec.Decode.{mode_name}

-- `RatingPrompt == RatingPromptData{}`.
unfoldable pub is_no_prompt : RatingPromptData → Bool
is_no_prompt p =
    is_empty p.first_launch_date && p.usage_days == 0 && is_empty p.last_usage_date && not p.asked

-- An object's initializer list.
unfoldable pub initializer : List (Bytes × Json) → Fields
initializer [] = no_fields
initializer ((key, value) ∷ rest) = set key value (initializer rest)

unfoldable pub encode_window : PersistedWindowBounds → Json
encode_window b = object (
    initializer (
      (wide "x", number b.x)
      ∷ (wide "y", number b.y)
      ∷ (wide "width", number b.width)
      ∷ (wide "height", number b.height)
      ∷ (wide "dpi", number (pos b.dpi))
      ∷ []))

unfoldable pub encode_prompt : JsonLibrary → RatingPromptData → Json
encode_prompt l p = object (
    initializer (
      (wide "firstLaunchDate", text (l.to_string p.first_launch_date))
      ∷ (wide "usageDays", number (pos p.usage_days))
      ∷ (wide "lastUsageDate", text (l.to_string p.last_usage_date))
      ∷ (wide "asked", boolean p.asked)
      ∷ []))

unfoldable pub encode_device : JsonLibrary → DeviceSettings → Json
encode_device l d = object (
    initializer (
      (wide "id", text (l.to_string d.id))
      ∷ (wide "name", text (l.to_string d.name))
      ∷ (wide "alias", text (l.to_string d.alias))
      ∷ (wide "connectOnStartup", boolean d.connect_on_startup)
      ∷ (wide "reconnectOnConnectionLoss", boolean d.reconnect_on_connection_loss)
      ∷ []))

unfoldable pub encode_devices : JsonLibrary → List DeviceSettings → Items
encode_devices l [] = no_items
encode_devices l (d ∷ ds) = item (encode_device l d) (encode_devices l ds)

unfoldable pub encode_ids : JsonLibrary → List WString → Items
encode_ids l [] = no_items
encode_ids l (i ∷ is) = item (text (l.to_string i)) (encode_ids l is)

unfoldable pub set_window : Option PersistedWindowBounds → Fields → Fields
set_window none fs = fs
set_window (some b) fs = set (wide "settingsWindowBounds") (encode_window b) fs

unfoldable pub set_prompt : JsonLibrary → RatingPromptData → Fields → Fields
set_prompt l p fs = if is_no_prompt p then fs else set (wide "ratingPrompt") (encode_prompt l p) fs

unfoldable pub encode_basics : JsonLibrary → SettingsData → Fields
encode_basics l d = initializer (
    (wide "schemaVersion", number schema_version)
    ∷ (wide "globalConnectOnStartup", boolean d.global_connect_on_startup)
    ∷ (wide "globalReconnectOnConnectionLoss", boolean d.global_reconnect_on_connection_loss)
    ∷ (wide "allowIncomingConnections", boolean d.allow_incoming_connections)
    ∷ (wide "startWithWindows", boolean d.start_with_windows)
    ∷ (wide "showNotifications", boolean d.show_notifications)
    ∷ (wide "useSystemBackdropEffects", boolean d.use_system_backdrop_effects)
    ∷ (wide "privacyModeEnabled", boolean d.privacy_mode_enabled)
    ∷ (wide "language", text (l.to_string d.language))
    ∷ (wide "defaultDeviceMode", text (mode_name d.default_device))
    ∷ (wide "defaultDeviceId", text (l.to_string d.default_device_id))
    ∷ (wide "devices", array no_items)
    ∷ (wide "lastConnectedIds", array no_items)
    ∷ [])

-- The JSON value that is written; the two loops append to the empty arrays.
unfoldable pub document : JsonLibrary → SettingsData → Json
document l d =
    let basics = encode_basics l d in
    let extended = set_prompt l d.rating_prompt (set_window d.settings_window_bounds basics) in
    let listed = set (wide "devices") (array (encode_devices l d.devices)) extended in
    object (set (wide "lastConnectedIds") (array (encode_ids l d.last_connected_ids)) listed)

unfoldable pub encode : JsonLibrary → SettingsData → Option Bytes
encode l d = do
  require (is_persistable d)
  let bytes : Bytes = l.dump (document l d)
  require (leb (length bytes) max_settings_file_bytes)
  some bytes
