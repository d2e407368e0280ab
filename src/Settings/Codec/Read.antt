-- ===== src/Settings/Codec/Read.antt =====
-- The accessors through which Decode of AudioPlaybackConnector2/src/core/SettingsCodec.cpp reads a JSON
-- value.
use audio_playback_connector.Prelude.{
  Bool, true, ◌&&◌, Option, none, some, List, [], ◌∷◌, leb, ◌>>◌, require,
}
use audio_playback_connector.Prelude.Int.{ℤ, pos, negsuc}
use audio_playback_connector.Text.{wide, contains}
use audio_playback_connector.Text.Utf16.{WString}
use audio_playback_connector.Settings.Data.{max_persisted_device_count, int_max}
use audio_playback_connector.Settings.Codec.Json.{
  Bytes, Json, null, boolean, number, decimal, text, array, object, Items, no_items, Fields,
  no_fields, field, JsonLibrary, find, size,
}

abbrev pub schema_version : ℤ
schema_version = pos 2

abbrev pub top_level_keys : List Bytes
top_level_keys =
    wide "schemaVersion"
    ∷ wide "globalConnectOnStartup"
    ∷ wide "globalReconnectOnConnectionLoss"
    ∷ wide "allowIncomingConnections"
    ∷ wide "startWithWindows"
    ∷ wide "showNotifications"
    ∷ wide "useSystemBackdropEffects"
    ∷ wide "privacyModeEnabled"
    ∷ wide "language"
    ∷ wide "defaultDeviceMode"
    ∷ wide "defaultDeviceId"
    ∷ wide "settingsWindowBounds"
    ∷ wide "devices"
    ∷ wide "lastConnectedIds"
    ∷ wide "ratingPrompt"
    ∷ []

abbrev pub window_bounds_keys : List Bytes
window_bounds_keys = wide "x" ∷ wide "y" ∷ wide "width" ∷ wide "height" ∷ wide "dpi" ∷ []

abbrev pub device_keys : List Bytes
device_keys =
    wide "id"
    ∷ wide "name"
    ∷ wide "alias"
    ∷ wide "connectOnStartup"
    ∷ wide "reconnectOnConnectionLoss"
    ∷ []

abbrev pub rating_prompt_keys : List Bytes
rating_prompt_keys =
    wide "firstLaunchDate" ∷ wide "usageDays" ∷ wide "lastUsageDate" ∷ wide "asked" ∷ []

unfoldable pub known_keys : List Bytes → Fields → Bool
known_keys keys no_fields = true
known_keys keys (field k v fs) = contains keys k && known_keys keys fs

-- `Object`, which gives the fields to the accessors below.
unfoldable pub object_of : List Bytes → Json → Option Fields
object_of keys (object fs) = do require (known_keys keys fs); some fs
object_of keys null = none
object_of keys (boolean b) = none
object_of keys (number z) = none
object_of keys (decimal w) = none
object_of keys (text w) = none
object_of keys (array is) = none

-- `Require(is_string())` and the conversion.
unfoldable pub as_text : JsonLibrary → Json → Option WString
as_text l (text w) = some (l.to_hstring w)
as_text l (object fs) = none
as_text l null = none
as_text l (boolean b) = none
as_text l (number z) = none
as_text l (decimal w) = none
as_text l (array is) = none

-- `Text`.
unfoldable pub text_of : JsonLibrary → Fields → Bytes → WString → Option WString
text_of l fs key fallback = elim (find key fs) [
  | none ↦ some fallback
  | some found ↦ as_text l found
]

abbrev pub fits_int32 : ℤ → Bool
fits_int32 (pos n) = leb n int_max
fits_int32 (negsuc n) = leb n int_max

-- `Require(is_number_integer())` and the test of the range.
unfoldable pub as_integer : Json → Option ℤ
as_integer (number z) = do require (fits_int32 z); some z
as_integer (object fs) = none
as_integer null = none
as_integer (boolean b) = none
as_integer (decimal w) = none
as_integer (text w) = none
as_integer (array is) = none

-- `Integer`.
unfoldable pub integer_of : Fields → Bytes → ℤ → Option ℤ
integer_of fs key fallback = elim (find key fs) [
  | none ↦ some fallback
  | some found ↦ as_integer found
]

unfoldable pub as_items : Json → Option Items
as_items (array is) = do require (leb (size is) max_persisted_device_count); some is
as_items (object fs) = none
as_items null = none
as_items (boolean b) = none
as_items (number z) = none
as_items (decimal w) = none
as_items (text w) = none

-- `Array`.
unfoldable pub array_of : Fields → Bytes → Option Items
array_of fs key = elim (find key fs) [ none ↦ some no_items | some found ↦ as_items found ]

-- A conversion to `bool`, which throws on another kind of value.
unfoldable pub as_boolean : Json → Option Bool
as_boolean (boolean b) = some b
as_boolean (object fs) = none
as_boolean null = none
as_boolean (number z) = none
as_boolean (decimal w) = none
as_boolean (text w) = none
as_boolean (array is) = none

-- `object.value(key, fallback)`.
unfoldable pub switch_of : Fields → Bytes → Bool → Option Bool
switch_of fs key fallback = elim (find key fs) [
  | none ↦ some fallback
  | some found ↦ as_boolean found
]
