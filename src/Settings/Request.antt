-- ===== src/Settings/Request.antt =====
-- The public mutations of `SettingsStore` as values: their arguments, the checks made on them before
-- `Commit`, and the mutation each one commits
-- (AudioPlaybackConnector2/src/core/SettingsStore.cpp).
use audio_playback_connector.Prelude.{Bool, true, ◌&&◌, Option, none, some}
use audio_playback_connector.Text.Utf16.{WString, is_bounded_utf16}
use audio_playback_connector.Settings.Data.{
  PersistedWindowBounds, is_supported_language, max_device_name_characters,
  max_device_alias_characters,
}
use audio_playback_connector.Settings.Persistable.{id_ok, window_ok}
use audio_playback_connector.Settings.Edit.{
  Edit, set_global_connect_on_startup, set_global_reconnect_on_connection_loss,
  set_allow_incoming_connections, set_start_with_windows, set_show_notifications,
  set_use_system_backdrop_effects, set_language, set_privacy_mode_enabled,
  record_rating_prompt_first_launch, mark_rating_prompt_asked, set_settings_window_bounds,
  remember_device, set_device_connect_on_startup, set_device_reconnect_on_connection_loss,
  set_device_alias, set_default_device, clear_default_device, forget_device,
  record_connected_device,
}

-- The public mutations with their arguments.
pub data Request : Type 0 where
  global_connect global_reconnect incoming startup notify backdrop privacy : Bool → Request
  language : WString → Request
  first_launch : WString → Request
  asked : Request
  window_bounds : Option PersistedWindowBounds → Request
  remember : WString → WString → Request
  device_connect device_reconnect : WString → Bool → Request
  device_alias : WString → WString → Option WString → Request
  default_set : WString → Request
  default_clear : Request
  forget : WString → Request
  connected : WString → WString → WString → Request

abbrev pub name_ok : WString → Bool
name_ok name = is_bounded_utf16 name max_device_name_characters

abbrev pub optional_name_ok : Option WString → Bool
optional_name_ok none = true
optional_name_ok (some name) = name_ok name

-- The checks of the arguments, made before `Commit`.
unfoldable pub admits : Request → Bool
admits (language l) = is_supported_language l
admits (window_bounds b) = window_ok b
admits (remember id name) = id_ok id && name_ok name
admits (device_connect id e) = id_ok id
admits (device_reconnect id e) = id_ok id
admits (device_alias id alias name) =
    id_ok id && is_bounded_utf16 alias max_device_alias_characters && optional_name_ok name
admits (default_set id) = id_ok id
admits (forget id) = id_ok id
admits (connected id name day) = id_ok id && name_ok name
admits _ = true

-- The mutation of each operation.
unfoldable pub edit : Request → Edit
edit (global_connect e) = set_global_connect_on_startup e
edit (global_reconnect e) = set_global_reconnect_on_connection_loss e
edit (incoming e) = set_allow_incoming_connections e
edit (startup e) = set_start_with_windows e
edit (notify e) = set_show_notifications e
edit (backdrop e) = set_use_system_backdrop_effects e
edit (privacy e) = set_privacy_mode_enabled e
edit (language l) = set_language l
edit (first_launch today) = record_rating_prompt_first_launch today
edit asked = mark_rating_prompt_asked
edit (window_bounds b) = set_settings_window_bounds b
edit (remember id name) = remember_device id name
edit (device_connect id e) = set_device_connect_on_startup id e
edit (device_reconnect id e) = set_device_reconnect_on_connection_loss id e
edit (device_alias id alias name) = set_device_alias id alias name
edit (default_set id) = set_default_device id
edit default_clear = clear_default_device
edit (forget id) = forget_device id
edit (connected id name day) = record_connected_device id name day
