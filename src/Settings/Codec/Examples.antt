-- ===== src/Settings/Codec/Examples.antt =====
-- Tests of the settings file's format (AudioPlaybackConnector2/src/core/SettingsCodec.cpp), and the
-- theorems at concrete inputs.
use audio_playback_connector.Prelude.{
  if◌then◌else◌, ◌≡◌, refl, true, false, none, some, [], ◌∷◌, Option, ◌>>=◌, ◌>>◌,
}
use audio_playback_connector.Prelude.Int.{pos, negsuc}
use audio_playback_connector.Text.{same, wide}
use audio_playback_connector.Text.Utf16.{
  WString-discrete, is_bounded_utf16, is_valid_utf16, contains_unit, unit_at,
}
use audio_playback_connector.Settings.Data.{
  SettingsData, DeviceSettings, default_settings, is_supported_language, specific_device,
}
use audio_playback_connector.Settings.Persistable.{is_persistable, devices_ok, ids_ok}
use audio_playback_connector.Settings.Codec.Json.{
  sorted_fields, no_items, item, array, sorted, text, JsonLibrary, Json, boolean, number, object,
  Fields, field, no_fields, find, size, before, set, erase, is_checked, parse_json,
}
use audio_playback_connector.Settings.Codec.Read.{
  object_of, known_keys, text_of, as_text, integer_of, as_integer, switch_of, as_boolean, array_of,
  as_items,
}
use audio_playback_connector.Settings.Codec.Decode.{
  decode, decode_json, decode_window, decode_bounds, decode_device, decode_devices, decode_ids,
  decode_prompt, decode_rating, decode_mode, date_ok, is_date, digits_ok, digit, is_calendar_day,
  is_current,
}
use audio_playback_connector.Settings.Codec.Encode.{
  document, encode, initializer, encode_basics, encode_window, encode_prompt, encode_device,
  encode_devices, encode_ids, set_window, set_prompt, is_no_prompt,
}
use audio_playback_connector.Settings.Codec.Legacy.{
  migrate_device, migrate_rows, migrate_array, decode_persisted, migrate, split_switch, set_missing,
  is_boolean, migrate_devices, completed,
}
use audio_playback_connector.Settings.Codec.Documents.{IsStorable, Converts}
use audio_playback_connector.Settings.Codec.RoundTrip.{decode-encode}
use audio_playback_connector.Settings.Codec.Reload.{reload}
use audio_playback_connector.Settings.Codec.Switches.{IsMigrated, migrate-IsMigrated}

-- A library that reads one document, for ASCII text.
abbrev reader : Option Json → JsonLibrary
reader j = record {
  parse = λ bytes. j;
  dump = λ j. wide "{}";
  to_hstring = λ w. w;
  to_string = λ w. w;
}

abbrev headset : DeviceSettings
headset = record {
  id = wide "bt-1";
  name = wide "Headset";
  alias = [];
  connect_on_startup = true;
  reconnect_on_connection_loss = false;
}

abbrev sample : SettingsData
sample = record default_settings {
  language = wide "de";
  default_device = specific_device;
  default_device_id = wide "bt-1";
  settings_window_bounds =
      some (record { x = negsuc 9; y = pos 20; width = pos 800; height = pos 600; dpi = 144 });
  devices = headset ∷ [];
  last_connected_ids = wide "bt-1" ∷ [];
  rating_prompt = record {
    first_launch_date = wide "2024-02-29";
    usage_days = 3;
    last_usage_date = wide "2026-11-26";
    asked = true;
  };
}

abbrev printed : Json
printed = document (reader none) sample

abbrev file : JsonLibrary
file = reader (some printed)

file-Converts : Converts file
file-Converts = record { there_and_back = λ w h. refl; keeps_ascii = λ w h. refl }

sample-IsStorable : IsStorable sample
unfolding is_persistable devices_ok ids_ok is_bounded_utf16 is_valid_utf16 contains_unit
    is_supported_language date_ok is_date digits_ok digit unit_at is_calendar_day WString-discrete
sample-IsStorable = record {
  persistable = refl;
  bounds = refl;
  first = refl;
  last = refl;
  days = refl;
}

-- There is no February 29 in 2023.
no_such_day : date_ok (wide "2023-02-29") ≡ false
unfolding date_ok is_date digits_ok digit unit_at is_calendar_day
no_such_day = refl

decode-encode_example : (encode file sample >>= decode file) ≡ some sample
unfolding document encode_ids encode_devices encode_basics encode_device set_prompt encode_prompt
decode-encode_example = decode-encode file file-Converts sample sample-IsStorable refl refl refl

-- A file of the current format.
sample_loaded :
    decode_persisted file (wide "{}") ≡ some (record { settings = sample; migrated = false })
unfolding ◌>>=◌ ◌>>◌ decode_persisted parse_json decode decode_json decode_window decode_bounds
    decode_device decode_devices decode_ids decode_prompt decode_rating decode_mode object_of
    known_keys text_of as_text integer_of as_integer switch_of as_boolean array_of as_items date_ok
    is_date digits_ok digit is_calendar_day is_current document initializer encode_basics
    encode_window encode_prompt encode_device encode_devices encode_ids set_window set_prompt
    is_no_prompt find before set is_checked is_persistable devices_ok ids_ok is_bounded_utf16
    is_valid_utf16 contains_unit is_supported_language unit_at size sorted erase WString-discrete
sample_loaded = refl

-- A file of 0.9.1, in the order in which that release wrote it.
abbrev legacy_window : Json
legacy_window = object (
    field (wide "x") (number (pos 1)) (
      field (wide "y") (number (pos 2)) (
        field (wide "width") (number (pos 320)) (
          field (wide "height") (number (pos 240))
            (field (wide "dpi") (number (pos 144)) no_fields)))))

abbrev legacy_row : Fields
legacy_row = field (wide "id") (text (wide "phone")) (
    field (wide "name") (text (wide "Phone")) (
      field (wide "alias") (text (wide "Desk")) (
        field (wide "autoReconnect") (boolean true)
          (field (wide "connectOnStartup") (boolean false) no_fields))))

abbrev legacy : Fields
legacy = field (wide "globalAutoReconnect") (boolean true) (
    field (wide "globalConnectOnStartup") (boolean false) (
      field (wide "allowIncomingConnections") (boolean true) (
        field (wide "startWithWindows") (boolean true) (
          field (wide "showNotifications") (boolean false) (
            field (wide "useSystemBackdropEffects") (boolean false) (
              field (wide "privacyModeEnabled") (boolean true) (
                field (wide "language") (text (wide "de")) (
                  field (wide "lastUpdateCheckUnixSeconds") (number (pos 123)) (
                    field (wide "lastNotifiedUpdateVersion") (text (wide "0.9.1")) (
                      field (wide "defaultDeviceMode") (text (wide "specificDevice")) (
                        field (wide "defaultDeviceId") (text (wide "phone")) (
                          field (wide "settingsWindowBounds") legacy_window (
                            field (wide "devices") (array (item (object legacy_row) no_items)) (
                              field (wide "lastConnectedIds")
                                (array (item (text (wide "phone")) no_items))
                                no_fields))))))))))))))

-- The settings that it holds.
abbrev upgraded : SettingsData
upgraded = record default_settings {
  global_connect_on_startup = false;
  global_reconnect_on_connection_loss = true;
  allow_incoming_connections = true;
  start_with_windows = true;
  show_notifications = false;
  use_system_backdrop_effects = false;
  privacy_mode_enabled = true;
  language = wide "de";
  default_device = specific_device;
  default_device_id = wide "phone";
  settings_window_bounds =
      some (record { x = pos 1; y = pos 2; width = pos 320; height = pos 240; dpi = 144 });
  devices =
      record {
        id = wide "phone";
        name = wide "Phone";
        alias = wide "Desk";
        connect_on_startup = false;
        reconnect_on_connection_loss = true;
      }
      ∷ [];
  last_connected_ids = wide "phone" ∷ [];
}

-- A library that reads the legacy file, and the document that it prints.
abbrev old_file : JsonLibrary
old_file = record {
  parse = λ bytes.
      if same bytes (wide "old")
      then some (object legacy)
      else some (document (reader none) upgraded);
  dump = λ j. wide "{}";
  to_hstring = λ w. w;
  to_string = λ w. w;
}

abbrev migrated_fields : Fields
migrated_fields = elim (document (reader none) upgraded) [ object fs ↦ fs | _ ↦ no_fields ]

-- The document that the legacy file becomes is the one that its settings are saved as.
legacy_migrated : migrate (object (sorted_fields legacy)) ≡ some migrated_fields
unfolding ◌>>=◌ ◌>>◌ migrate split_switch set_missing is_boolean migrate_devices migrate_array
    migrate_rows migrate_device completed object_of known_keys find before set erase sorted document
    initializer encode_basics encode_window encode_prompt encode_device encode_devices encode_ids
    set_window set_prompt is_no_prompt WString-discrete
legacy_migrated = refl

migrate-IsMigrated_example : IsMigrated (sorted_fields legacy) migrated_fields
migrate-IsMigrated_example =
    migrate-IsMigrated (sorted_fields legacy) migrated_fields legacy_migrated

old_file-Converts : Converts old_file
old_file-Converts = record { there_and_back = λ w h. refl; keeps_ascii = λ w h. refl }

legacy_loaded :
    decode_persisted old_file (wide "old") ≡ some (record { settings = upgraded; migrated = true })
unfolding ◌>>=◌ ◌>>◌ decode_persisted parse_json decode decode_json decode_window decode_bounds
    decode_device decode_devices decode_ids decode_prompt decode_rating decode_mode object_of
    known_keys text_of as_text integer_of as_integer switch_of as_boolean array_of as_items date_ok
    is_date digits_ok digit is_calendar_day is_current document initializer encode_basics
    encode_window encode_prompt encode_device encode_devices encode_ids set_window set_prompt
    is_no_prompt find before set is_checked is_persistable devices_ok ids_ok is_bounded_utf16
    is_valid_utf16 contains_unit is_supported_language unit_at size sorted erase migrate
    split_switch set_missing is_boolean migrate_devices migrate_array migrate_rows migrate_device
    completed WString-discrete
legacy_loaded = refl

reload_example : (encode old_file upgraded >>= decode old_file) ≡ some upgraded
unfolding document encode_ids encode_devices encode_basics encode_device set_prompt encode_prompt
    WString-discrete
reload_example =
    reload old_file old_file-Converts (wide "old") (record { settings = upgraded; migrated = true })
      legacy_loaded refl refl refl
