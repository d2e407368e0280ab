-- ===== src/Settings/Codec/Legacy.antt =====
-- DecodePersisted of AudioPlaybackConnector2/src/core/SettingsCodec.cpp: files without a schema
-- version, which 0.9.1 wrote, are brought to the current format first.
use audio_playback_connector.Prelude.{
  Bool, true, false, Option, none, some, List, [], ◌∷◌, if◌then◌else◌, is_some, ◌>>=◌, ◌>>◌,
  require,
}
use audio_playback_connector.Text.{wide}
use audio_playback_connector.Settings.Data.{SettingsData}
use audio_playback_connector.Settings.Codec.Json.{
  Bytes, Json, null, boolean, number, decimal, text, array, object, Items, no_items, item, Fields,
  JsonLibrary, find, set, erase, parse_json,
}
use audio_playback_connector.Settings.Codec.Read.{schema_version, object_of}
use audio_playback_connector.Settings.Codec.Decode.{decode}

abbrev pub legacy_top_level_keys : List Bytes
legacy_top_level_keys =
    wide "globalAutoReconnect"
    ∷ wide "globalConnectOnStartup"
    ∷ wide "globalReconnectOnConnectionLoss"
    ∷ wide "allowIncomingConnections"
    ∷ wide "startWithWindows"
    ∷ wide "showNotifications"
    ∷ wide "useSystemBackdropEffects"
    ∷ wide "privacyModeEnabled"
    ∷ wide "language"
    ∷ wide "lastUpdateCheckUnixSeconds"
    ∷ wide "lastNotifiedUpdateVersion"
    ∷ wide "defaultDeviceMode"
    ∷ wide "defaultDeviceId"
    ∷ wide "settingsWindowBounds"
    ∷ wide "devices"
    ∷ wide "lastConnectedIds"
    ∷ []

-- `DecodedSettings`.
pub record DecodedSettings : Type 0 where
  pub settings : SettingsData
  pub migrated : Bool

-- `if (!object.contains(key)) object[key] = value`.
unfoldable pub set_missing : Bytes → Json → Fields → Fields
set_missing key value fs = if is_some (find key fs) then fs else set key value fs

unfoldable pub is_boolean : Json → Bool
is_boolean (boolean b) = true
is_boolean null = false
is_boolean (number z) = false
is_boolean (decimal w) = false
is_boolean (text w) = false
is_boolean (array is) = false
is_boolean (object fs) = false

-- An old switch becomes two new ones, where they are not set.
unfoldable pub split_switch : Bytes → Bytes → Bytes → Fields → Option Fields
split_switch old startup reconnect fs = elim (find old fs) [
  | none ↦ some fs
  | some value ↦ do
    require (is_boolean value)
    some (erase old (set_missing reconnect value (set_missing startup value fs)))
]

unfoldable pub migrate_device : Json → Option Json
migrate_device (object fs) = do
  migrated ←
      split_switch (wide "autoReconnect") (wide "connectOnStartup")
        (wide "reconnectOnConnectionLoss") fs
  some (object migrated)
migrate_device null = none
migrate_device (boolean b) = none
migrate_device (number z) = none
migrate_device (decimal w) = none
migrate_device (text w) = none
migrate_device (array is) = none

unfoldable pub migrate_rows : Items → Option Items
migrate_rows no_items = some no_items
migrate_rows (item row rows) = do
  row' ← migrate_device row
  rows' ← migrate_rows rows
  some (item row' rows')

unfoldable pub migrate_array : Json → Option Json
migrate_array (array is) = do rows ← migrate_rows is; some (array rows)
migrate_array (object fs) = none
migrate_array null = none
migrate_array (boolean b) = none
migrate_array (number z) = none
migrate_array (decimal w) = none
migrate_array (text w) = none

-- The loop changes the rows in place.
unfoldable pub migrate_devices : Fields → Option Fields
migrate_devices fs = elim (find (wide "devices") fs) [
  | none ↦ some fs
  | some devices ↦ do rows ← migrate_array devices; some (set (wide "devices") rows fs)
]

-- The last three statements before the document is decoded.
unfoldable pub completed : Fields → Fields
completed fs =
    let kept =
      erase (wide "lastNotifiedUpdateVersion") (erase (wide "lastUpdateCheckUnixSeconds") fs) in
    set (wide "schemaVersion") (number schema_version) kept

-- The document that is decoded in place of a legacy one.
unfoldable pub migrate : Json → Option Fields
migrate json = do
  old ← object_of legacy_top_level_keys json
  switched ←
      split_switch (wide "globalAutoReconnect") (wide "globalConnectOnStartup")
        (wide "globalReconnectOnConnectionLoss") old
  rows ← migrate_devices switched
  some (completed rows)

abbrev pub has_version : Json → Option Bool
has_version (object fs) = some (is_some (find (wide "schemaVersion") fs))
has_version null = none
has_version (boolean b) = none
has_version (number z) = none
has_version (decimal w) = none
has_version (text w) = none
has_version (array is) = none

unfoldable pub decode_persisted : JsonLibrary → Bytes → Option DecodedSettings
decode_persisted l bytes = do
  json ← parse_json l bytes
  current ← has_version json
  let as_it_is : Option DecodedSettings = do
    decoded ← decode l bytes
    some (record { settings = decoded; migrated = false })
  let brought_up : Option DecodedSettings = do
    fields ← migrate json
    decoded ← decode l (l.dump (object fields))
    some (record { settings = decoded; migrated = true })
  if current then as_it_is else brought_up
