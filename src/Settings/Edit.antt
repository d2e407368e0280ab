-- ===== src/Settings/Edit.antt =====
-- The mutations that the public operations of `SettingsStore` hand to `Commit`
-- (AudioPlaybackConnector2/src/core/SettingsStore.cpp): each takes the candidate settings and
-- returns them with the flag "changed".
use audio_playback_connector.Prelude.{
  differs, suc, ◌+◌, Bool, true, false, not, ◌&&◌, ◌||◌, Option, none, some, List, [], ◌∷◌, ◌++◌,
  ltb, ◌==◌, length, if◌then◌else◌, holds,
}
use audio_playback_connector.Text.{same, is_empty}
use audio_playback_connector.Text.Utf16.{WString}
use audio_playback_connector.Settings.Data.{
  DeviceSettings, last_connected, specific_device, PersistedWindowBounds, SettingsData,
  RatingPromptData, max_persisted_device_count, int_max, Bounds-discrete, Ids-discrete,
}
use audio_playback_connector.Settings.Persistable.{is_specific}
use audio_playback_connector.Settings.Lists.{
  find_device, update_device, erase_device, erase_id, drop_last,
}

-- A mutation of the candidate, with its result "changed".
abbrev pub Edit : Type 0
Edit = SettingsData → SettingsData × Bool

-- A device that is new to the settings takes the global preferences.
abbrev pub new_device : SettingsData → WString → WString → WString → DeviceSettings
new_device s id name alias = record {
  id = id;
  name = name;
  alias = alias;
  connect_on_startup = s.global_connect_on_startup;
  reconnect_on_connection_loss = s.global_reconnect_on_connection_loss;
}

unfoldable pub set_global_connect_on_startup : Bool → Edit
set_global_connect_on_startup e s =
    (record s { global_connect_on_startup = e }, differs s.global_connect_on_startup e)

unfoldable pub set_global_reconnect_on_connection_loss : Bool → Edit
set_global_reconnect_on_connection_loss e s = (
  record s { global_reconnect_on_connection_loss = e },
  differs s.global_reconnect_on_connection_loss e,
)

unfoldable pub set_allow_incoming_connections : Bool → Edit
set_allow_incoming_connections e s =
    (record s { allow_incoming_connections = e }, differs s.allow_incoming_connections e)

unfoldable pub set_start_with_windows : Bool → Edit
set_start_with_windows e s = (record s { start_with_windows = e }, differs s.start_with_windows e)

unfoldable pub set_show_notifications : Bool → Edit
set_show_notifications e s = (record s { show_notifications = e }, differs s.show_notifications e)

unfoldable pub set_use_system_backdrop_effects : Bool → Edit
set_use_system_backdrop_effects e s =
    (record s { use_system_backdrop_effects = e }, differs s.use_system_backdrop_effects e)

unfoldable pub set_language : WString → Edit
set_language l s = (record s { language = l }, not (same s.language l))

unfoldable pub set_privacy_mode_enabled : Bool → Edit
set_privacy_mode_enabled e s =
    (record s { privacy_mode_enabled = e }, differs s.privacy_mode_enabled e)

unfoldable pub record_rating_prompt_first_launch : WString → Edit
record_rating_prompt_first_launch today s =
    let prompt = s.rating_prompt in
    if is_empty today || not (is_empty prompt.first_launch_date)
    then (s, false)
    else (record s { rating_prompt = record prompt { first_launch_date = today } }, true)

unfoldable pub mark_rating_prompt_asked : Edit
mark_rating_prompt_asked s =
    let prompt = s.rating_prompt in
    (record s { rating_prompt = record prompt { asked = true } }, not prompt.asked)

unfoldable pub set_settings_window_bounds : Option PersistedWindowBounds → Edit
set_settings_window_bounds b s = (
  record s { settings_window_bounds = b },
  not (holds (Bounds-discrete s.settings_window_bounds b)),
)

unfoldable pub remember_device : WString → WString → Edit
remember_device id name s = elim (find_device s.devices id) [
  | some d ↦ (s, false)
  | none ↦
      if length s.devices == max_persisted_device_count
      then (s, false)
      else (record s { devices = s.devices ++ new_device s id name [] ∷ [] }, true)
]

unfoldable pub set_device_connect_on_startup : WString → Bool → Edit
set_device_connect_on_startup id e s = elim (find_device s.devices id) [
  | none ↦ (s, false)
  | some d ↦ (
    record s { devices = update_device s.devices id (record d { connect_on_startup = e }) },
    differs d.connect_on_startup e,
  )
]

unfoldable pub set_device_reconnect_on_connection_loss : WString → Bool → Edit
set_device_reconnect_on_connection_loss id e s = elim (find_device s.devices id) [
  | none ↦ (s, false)
  | some d ↦ (
    record s {
      devices = update_device s.devices id (record d { reconnect_on_connection_loss = e });
    },
    differs d.reconnect_on_connection_loss e,
  )
]

-- `deviceName && !deviceName->empty() && device->Name != *deviceName`.
abbrev pub renames : Option WString → DeviceSettings → Bool
renames none d = false
renames (some name) d = not (is_empty name) && not (same d.name name)

abbrev pub value_or_empty : Option WString → WString
value_or_empty none = []
value_or_empty (some name) = name

unfoldable pub set_device_alias : WString → WString → Option WString → Edit
set_device_alias id alias name s = elim (find_device s.devices id) [
  | none ↦
      if is_empty alias || length s.devices == max_persisted_device_count then (s, false) else (
        record s { devices = s.devices ++ new_device s id (value_or_empty name) alias ∷ [] },
        true,
      )
  | some d ↦
      let new_name = if renames name d then value_or_empty name else d.name in
      (
        record s {
          devices = update_device s.devices id (record d { alias = alias; name = new_name });
        },
        not (same d.alias alias) || renames name d,
      )
]

-- `result.DeviceExists` after that mutation.
unfoldable pub alias_device_exists : WString → WString → SettingsData → Bool
alias_device_exists id alias s = elim (find_device s.devices id) [
  | none ↦ not (is_empty alias || length s.devices == max_persisted_device_count)
  | some d ↦ true
]

unfoldable pub set_default_device : WString → Edit
set_default_device id s = (
  record s { default_device = specific_device; default_device_id = id },
  not (is_specific s.default_device) || not (same s.default_device_id id),
)

unfoldable pub clear_default_device : Edit
clear_default_device s = (
  record s { default_device = last_connected; default_device_id = [] },
  is_specific s.default_device || not (is_empty s.default_device_id),
)

unfoldable pub forget_device : WString → Edit
forget_device id s =
    let before = length s.devices + length s.last_connected_ids in
    let removed = same s.default_device_id id in
    let devices' = erase_device s.devices id in
    let ids' = erase_id s.last_connected_ids id in
    (
      record s {
        devices = devices';
        last_connected_ids = ids';
        default_device = if removed then last_connected else s.default_device;
        default_device_id = if removed then [] else s.default_device_id;
      },
      removed || not (before == length devices' + length ids'),
    )

-- The device list after a connection, with its part of the flag.
unfoldable pub connected_devices : WString → WString → SettingsData → List DeviceSettings × Bool
connected_devices id name s = elim (find_device s.devices id) [
  | none ↦
      if ltb (length s.devices) max_persisted_device_count
      then (s.devices ++ new_device s id name [] ∷ [], true)
      else (s.devices, false)
  | some d ↦
      if not (is_empty name) && not (same d.name name)
      then (update_device s.devices id (record d { name = name }), true)
      else (s.devices, false)
]

-- The history after a connection: the device moves to the front.
unfoldable pub connected_ids : WString → List WString → List WString
connected_ids id ids =
    let moved = id ∷ erase_id ids id in
    if ltb max_persisted_device_count (length moved) then drop_last moved else moved

-- The rating prompt counts the days on which a device connected.
unfoldable pub counts_usage_day : RatingPromptData → WString → Bool
counts_usage_day p day =
    not p.asked
    && not (is_empty day)
    && not (same p.last_usage_date day)
    && ltb p.usage_days int_max

unfoldable pub record_connected_device : WString → WString → WString → Edit
record_connected_device id name usage_day s =
    let (devices', devices_changed) = connected_devices id name s in
    let ids' = connected_ids id s.last_connected_ids in
    let p = s.rating_prompt in
    let counted = counts_usage_day p usage_day in
    let rating =
      if counted
      then record p { last_usage_date = usage_day; usage_days = suc p.usage_days }
      else p in
    (
      record s { devices = devices'; last_connected_ids = ids'; rating_prompt = rating },
      devices_changed || not (holds (Ids-discrete ids' s.last_connected_ids)) || counted,
    )
