-- ===== src/Settings/Data.antt =====
-- The settings as the program holds them: AudioPlaybackConnector2/include/core/SettingsData.hpp, and
-- the limits of AudioPlaybackConnector2/include/core/SettingsLimits.hpp.
use audio_playback_connector.Prelude.{
  ℕ, Bool, true, false, Option, none, List, [], ◌||◌, ℕ_discrete,
}
use audio_playback_connector.Prelude.Int.{ℤ}
use audio_playback_connector.Text.{same, wide}
use audio_playback_connector.Text.Utf16.{WString, WString-discrete}

abbrev pub max_persisted_device_count : ℕ
max_persisted_device_count = 384

abbrev pub max_device_id_characters : ℕ
max_device_id_characters = 512

abbrev pub max_device_name_characters : ℕ
max_device_name_characters = 256

abbrev pub max_device_alias_characters : ℕ
max_device_alias_characters = 128

abbrev pub min_window_dpi : ℕ
min_window_dpi = 48

abbrev pub max_window_dpi : ℕ
max_window_dpi = 960

-- The largest `int`.
abbrev pub int_max : ℕ
int_max = 2147483647

pub record DeviceSettings : Type 0 where
  pub id : WString
  pub name : WString
  pub alias : WString
  pub connect_on_startup : Bool
  pub reconnect_on_connection_loss : Bool

pub data DefaultDeviceMode : Type 0 where
  last_connected specific_device : DefaultDeviceMode

-- `usage_days` is an `int` that starts at 0, is only incremented, and is read from a file only where
-- it is not negative.
pub record RatingPromptData : Type 0 where
  pub first_launch_date : WString
  pub usage_days : ℕ
  pub last_usage_date : WString
  pub asked : Bool

pub record PersistedWindowBounds : Type 0 where
  pub x : ℤ
  pub y : ℤ
  pub width : ℤ
  pub height : ℤ
  pub dpi : ℕ

pub record SettingsData : Type 0 where
  pub global_connect_on_startup : Bool
  pub global_reconnect_on_connection_loss : Bool
  pub allow_incoming_connections : Bool
  pub start_with_windows : Bool
  pub show_notifications : Bool
  pub use_system_backdrop_effects : Bool
  pub language : WString
  pub settings_window_bounds : Option PersistedWindowBounds
  pub privacy_mode_enabled : Bool
  pub default_device : DefaultDeviceMode
  pub default_device_id : WString
  pub devices : List DeviceSettings
  pub last_connected_ids : List WString
  pub rating_prompt : RatingPromptData

unfoldable pub Bounds-discrete : Discrete (Option PersistedWindowBounds)
unfolding ℕ_discrete
Bounds-discrete = hlevel ℕ_discrete

unfoldable pub Ids-discrete : Discrete (List WString)
unfolding ℕ_discrete
Ids-discrete = hlevel ℕ_discrete

unfoldable pub is_supported_language : WString → Bool
unfolding WString-discrete
is_supported_language v =
    same v (wide "system")
    || same v (wide "en")
    || same v (wide "de")
    || same v (wide "fr")
    || same v (wide "es")
    || same v (wide "ja")
    || same v (wide "ko")
    || same v (wide "zh_hans")
    || same v (wide "zh_hant")

-- The values of a fresh `SettingsData`.
abbrev pub default_settings : SettingsData
default_settings = record {
  global_connect_on_startup = false;
  global_reconnect_on_connection_loss = false;
  allow_incoming_connections = false;
  start_with_windows = false;
  show_notifications = true;
  use_system_backdrop_effects = true;
  language = wide "system";
  settings_window_bounds = none;
  privacy_mode_enabled = false;
  default_device = DefaultDeviceMode.last_connected;
  default_device_id = [];
  devices = [];
  last_connected_ids = [];
  rating_prompt = record {
    first_launch_date = [];
    usage_days = 0;
    last_usage_date = [];
    asked = false;
  };
}
