-- ===== src/Settings/Persistable.antt =====
-- IsPersistable of AudioPlaybackConnector2/src/core/SettingsCodec.cpp: what may be written to disk.
use audio_playback_connector.Prelude.{
  Bool, true, false, not, ◌&&◌, Option, none, some, List, [], ◌∷◌, leb, ltb, length, ◌≡◌, refl,
}
use audio_playback_connector.Prelude.Int.{ℤ, pos, negsuc}
use audio_playback_connector.Text.{is_empty, contains}
use audio_playback_connector.Text.Utf16.{WString, is_bounded_utf16, is_valid_utf16, contains_unit}
use audio_playback_connector.Settings.Data.{
  DeviceSettings, DefaultDeviceMode, last_connected, specific_device, PersistedWindowBounds,
  SettingsData, is_supported_language, default_settings, max_persisted_device_count,
  max_device_id_characters, max_device_name_characters, max_device_alias_characters, min_window_dpi,
  max_window_dpi,
}

abbrev pub is_positive : ℤ → Bool
is_positive (pos n) = ltb 0 n
is_positive (negsuc n) = false

-- `bounds` has a size and a DPI in range; no bounds are fine too.
abbrev pub window_ok : Option PersistedWindowBounds → Bool
window_ok none = true
window_ok (some b) =
    is_positive b.width
    && is_positive b.height
    && leb min_window_dpi b.dpi
    && leb b.dpi max_window_dpi

abbrev pub id_ok : WString → Bool
id_ok id = not (is_empty id) && is_bounded_utf16 id max_device_id_characters

abbrev pub device_ok : DeviceSettings → Bool
device_ok d =
    id_ok d.id
    && is_bounded_utf16 d.name max_device_name_characters
    && is_bounded_utf16 d.alias max_device_alias_characters

-- The loop over the devices, with the set of the identifiers seen.
unfoldable pub devices_ok : List WString → List DeviceSettings → Bool
devices_ok seen [] = true
devices_ok seen (d ∷ ds) = device_ok d && not (contains seen d.id) && devices_ok (d.id ∷ seen) ds

-- The loop over the connection history, likewise.
unfoldable pub ids_ok : List WString → List WString → Bool
ids_ok seen [] = true
ids_ok seen (i ∷ is) = id_ok i && not (contains seen i) && ids_ok (i ∷ seen) is

abbrev pub is_specific : DefaultDeviceMode → Bool
is_specific last_connected = false
is_specific specific_device = true

-- A default device is named exactly in the mode for one.
abbrev pub default_ok : DefaultDeviceMode → WString → Bool
default_ok last_connected id = is_empty id
default_ok specific_device id = not (is_empty id)

unfoldable pub is_persistable : SettingsData → Bool
is_persistable s =
    leb (length s.devices) max_persisted_device_count
    && leb (length s.last_connected_ids) max_persisted_device_count
    && is_supported_language s.language
    && is_bounded_utf16 s.default_device_id max_device_id_characters
    && default_ok s.default_device s.default_device_id
    && window_ok s.settings_window_bounds
    && devices_ok [] s.devices
    && ids_ok [] s.last_connected_ids

-- Fresh settings may be written.
pub default_settings_ok : is_persistable default_settings ≡ true
unfolding is_persistable devices_ok ids_ok is_bounded_utf16 is_valid_utf16 contains_unit
    is_supported_language
default_settings_ok = refl
