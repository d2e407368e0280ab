-- ===== src/Settings/Codec/Decode.antt =====
-- Decode of AudioPlaybackConnector2/src/core/SettingsCodec.cpp.
use audio_playback_connector.Prelude.{
  ℕ, suc, ◌+◌, ◌-◌, ◌*◌, ◌%◌, Bool, true, false, not, ◌&&◌, ◌||◌, Option, none, some, List, [], ◌∷◌,
  ltb, leb, ◌==◌, if◌then◌else◌, length, ◌>>=◌, ◌>>◌, require,
}
use audio_playback_connector.Prelude.Int.{ℤ, pos, negsuc}
use audio_playback_connector.Text.{same, wide, is_empty}
use audio_playback_connector.Text.Utf16.{WString, unit_at}
use audio_playback_connector.Settings.Data.{
  DeviceSettings, DefaultDeviceMode, last_connected, specific_device, PersistedWindowBounds,
  RatingPromptData, SettingsData, default_settings,
}
use audio_playback_connector.Settings.Persistable.{is_persistable}
use audio_playback_connector.Settings.Codec.Json.{
  Bytes, Json, Items, no_items, item, JsonLibrary, find, parse_json,
}
use audio_playback_connector.Settings.Codec.Read.{
  top_level_keys, window_bounds_keys, device_keys, rating_prompt_keys, object_of, as_text, text_of,
  integer_of, array_of, switch_of,
}

-- A number that `Require` finds above or at zero.
abbrev pub natural : ℤ → Option ℕ
natural (pos n) = some n
natural (negsuc n) = none

abbrev pub positive : ℤ → Option ℕ
positive (pos n) = do require (ltb 0 n); some n
positive (negsuc n) = none

-- `USER_DEFAULT_SCREEN_DPI`.
abbrev pub default_screen_dpi : ℤ
default_screen_dpi = pos 96

unfoldable pub decode_window : Json → Option PersistedWindowBounds
decode_window json = do
  bounds ← object_of window_bounds_keys json
  dpi ← positive (← integer_of bounds (wide "dpi") default_screen_dpi)
  x ← integer_of bounds (wide "x") (pos 0)
  y ← integer_of bounds (wide "y") (pos 0)
  width ← integer_of bounds (wide "width") (pos 0)
  height ← integer_of bounds (wide "height") (pos 0)
  some (record { x = x; y = y; width = width; height = height; dpi = dpi })

unfoldable pub decode_bounds : Option Json → Option (Option PersistedWindowBounds)
decode_bounds none = some none
decode_bounds (some json) = do bounds ← decode_window json; some (some bounds)

-- The body of the loop over the devices.
unfoldable pub decode_device : JsonLibrary → Json → Option DeviceSettings
decode_device l json = do
  row ← object_of device_keys json
  id ← text_of l row (wide "id") []
  name ← text_of l row (wide "name") []
  alias ← text_of l row (wide "alias") []
  startup ← switch_of row (wide "connectOnStartup") false
  reconnect ← switch_of row (wide "reconnectOnConnectionLoss") false
  some (record {
    id = id;
    name = name;
    alias = alias;
    connect_on_startup = startup;
    reconnect_on_connection_loss = reconnect;
  })

unfoldable pub decode_devices : JsonLibrary → Items → Option (List DeviceSettings)
decode_devices l no_items = some []
decode_devices l (item row rows) = do
  device ← decode_device l row
  devices ← decode_devices l rows
  some (device ∷ devices)

unfoldable pub decode_ids : JsonLibrary → Items → Option (List WString)
decode_ids l no_items = some []
decode_ids l (item i is) = do id ← as_text l i; ids ← decode_ids l is; some (id ∷ ids)

-- The loop over a date's characters, from index `i`.
unfoldable pub digits_ok : ℕ → WString → Bool
digits_ok i [] = true
digits_ok i (c ∷ w) = (i == 4 || i == 7 || leb 0x30 c && leb c 0x39) && digits_ok (suc i) w

unfoldable pub digit : WString → ℕ → ℕ
digit date i = unit_at date i - 0x30

abbrev pub is_leap : ℕ → Bool
is_leap year = year % 4 == 0 && (not (year % 100 == 0) || year % 400 == 0)

abbrev pub last_day : ℕ → ℕ → ℕ
last_day year month =
    if month == 2
    then (if is_leap year then 29 else 28)
    else if month == 4 || month == 6 || month == 9 || month == 11
    then 30
    else 31

-- `ok` of `std::chrono::year_month_day`, for years that are in its range.
unfoldable pub is_calendar_day : ℕ → ℕ → ℕ → Bool
is_calendar_day year month day =
    leb 1 month && leb month 12 && leb 1 day && leb day (last_day year month)

unfoldable pub is_date : WString → Bool
is_date date =
    length date == 10
    && unit_at date 4 == 0x2D
    && unit_at date 7 == 0x2D
    && digits_ok 0 date
    && is_calendar_day (digit date 0 * 1000 + digit date 1 * 100 + digit date 2 * 10 + digit date 3)
        (digit date 5 * 10 + digit date 6) (digit date 8 * 10 + digit date 9)

unfoldable pub date_ok : WString → Bool
date_ok date = is_empty date || is_date date

abbrev pub no_prompt : RatingPromptData
no_prompt = default_settings.rating_prompt

unfoldable pub decode_prompt : JsonLibrary → Json → Option RatingPromptData
decode_prompt l json = do
  rating ← object_of rating_prompt_keys json
  first ← text_of l rating (wide "firstLaunchDate") []
  last ← text_of l rating (wide "lastUsageDate") []
  days ← natural (← integer_of rating (wide "usageDays") (pos 0))
  asked ← switch_of rating (wide "asked") false
  require (date_ok first)
  require (date_ok last)
  some (record {
    first_launch_date = first;
    usage_days = days;
    last_usage_date = last;
    asked = asked;
  })

unfoldable pub decode_rating : JsonLibrary → Option Json → Option RatingPromptData
decode_rating l none = some no_prompt
decode_rating l (some json) = decode_prompt l json

abbrev pub mode_name : DefaultDeviceMode → WString
mode_name last_connected = wide "lastConnected"
mode_name specific_device = wide "specificDevice"

unfoldable pub decode_mode : WString → Option DefaultDeviceMode
decode_mode mode = do
  require (same mode (wide "lastConnected") || same mode (wide "specificDevice"))
  some (if same mode (wide "specificDevice") then specific_device else last_connected)

-- `Require(Integer(json, "schemaVersion", -1) == c_schemaVersion)`.
unfoldable pub is_current : ℤ → Bool
is_current (pos n) = n == 2
is_current (negsuc n) = false

-- `Decode` behind `ParseJson`.
unfoldable pub decode_json : JsonLibrary → Json → Option SettingsData
decode_json l json = do
  fs ← object_of top_level_keys json
  version ← integer_of fs (wide "schemaVersion") (negsuc 0)
  require (is_current version)
  startup ← switch_of fs (wide "globalConnectOnStartup") false
  reconnect ← switch_of fs (wide "globalReconnectOnConnectionLoss") false
  incoming ← switch_of fs (wide "allowIncomingConnections") false
  windows ← switch_of fs (wide "startWithWindows") false
  notifications ← switch_of fs (wide "showNotifications") true
  backdrop ← switch_of fs (wide "useSystemBackdropEffects") true
  privacy ← switch_of fs (wide "privacyModeEnabled") false
  language ← text_of l fs (wide "language") (wide "system")
  mode ← decode_mode (← text_of l fs (wide "defaultDeviceMode") (wide "lastConnected"))
  id ← text_of l fs (wide "defaultDeviceId") []
  bounds ← decode_bounds (find (wide "settingsWindowBounds") fs)
  devices ← decode_devices l (← array_of fs (wide "devices"))
  ids ← decode_ids l (← array_of fs (wide "lastConnectedIds"))
  rating ← decode_rating l (find (wide "ratingPrompt") fs)
  let settings : SettingsData = record {
    global_connect_on_startup = startup;
    global_reconnect_on_connection_loss = reconnect;
    allow_incoming_connections = incoming;
    start_with_windows = windows;
    show_notifications = notifications;
    use_system_backdrop_effects = backdrop;
    language = language;
    settings_window_bounds = bounds;
    privacy_mode_enabled = privacy;
    default_device = mode;
    default_device_id = id;
    devices = devices;
    last_connected_ids = ids;
    rating_prompt = rating;
  }
  require (is_persistable settings)
  some settings

unfoldable pub decode : JsonLibrary → Bytes → Option SettingsData
decode l bytes = parse_json l bytes >>= decode_json l
