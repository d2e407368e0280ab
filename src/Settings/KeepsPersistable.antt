-- ===== src/Settings/KeepsPersistable.antt =====
-- Every admitted mutation keeps the settings fit for the disk.
use audio_playback_connector.Prelude.{
  ◌≡◌, refl, true, none, some, [], ◌∷◌, ◌++◌, ◌≤◌, inl, inr, arith, length, Bool, Option, ◌∙◌,
  if◌then◌else◌, Option-cases, length-append,
}
use audio_playback_connector.Text.Utf16.{WString}
use audio_playback_connector.Text.Utf16.Truncate.{nil-bounded}
use audio_playback_connector.Settings.Data.{
  DeviceSettings, SettingsData, max_persisted_device_count, max_device_id_characters,
  max_device_name_characters, max_device_alias_characters,
}
use audio_playback_connector.Settings.Lists.{find_device, update_device, erase_id}
use audio_playback_connector.Settings.Persistable.{
  is_persistable, id_ok, device_ok, devices_ok, ids_ok,
}
use audio_playback_connector.Settings.Unique.{
  ids_ok-erase_id, ids_ok-tail, ids_ok-drop_last, devices_ok-erase_device, devices_ok-append,
  devices_ok-update_device, find_device-ok, length-update_device, length-erase_device,
  length-erase_id, length-drop_last,
}
use audio_playback_connector.Settings.Edit.{
  set_global_connect_on_startup, set_global_reconnect_on_connection_loss,
  set_allow_incoming_connections, set_start_with_windows, set_show_notifications,
  set_use_system_backdrop_effects, set_language, set_privacy_mode_enabled,
  record_rating_prompt_first_launch, mark_rating_prompt_asked, set_settings_window_bounds,
  remember_device, set_device_connect_on_startup, set_device_reconnect_on_connection_loss,
  set_device_alias, set_default_device, clear_default_device, forget_device,
  record_connected_device, connected_devices, connected_ids, value_or_empty, renames, new_device,
}
use audio_playback_connector.Settings.Request.{
  Request, global_connect, global_reconnect, incoming, startup, notify, backdrop, privacy, language,
  first_launch, asked, window_bounds, remember, device_connect, device_reconnect, device_alias,
  default_set, default_clear, forget, connected, admits, edit,
}

-- The part of validity that the device list carries.
abbrev DevicesOk : SettingsData → Type 0
DevicesOk s = (devices_ok [] s.devices ≡ true) × (length s.devices ≤ max_persisted_device_count)

module _ (s : SettingsData) (v : is_persistable s ≡ true) where
  ok_devices : DevicesOk s
  unfolding is_persistable
  ok_devices = ground arith

  -- Validity where only the devices change.
  with_devices :
      (ds : _)
      → devices_ok [] ds ≡ true
      → length ds ≤ max_persisted_device_count
      → is_persistable (record s { devices = ds }) ≡ true
  unfolding is_persistable
  with_devices ds a b = ground arith

  append_ok :
      (d : DeviceSettings)
      → device_ok d ≡ true
      → find_device s.devices d.id ≡ none
      → length s.devices ≤ 383
      → is_persistable (record s { devices = s.devices ++ d ∷ [] }) ≡ true
  append_ok d ok absent few =
      with_devices (s.devices ++ d ∷ [])
        (devices_ok-append [] s.devices d ok_devices.0 ok refl absent)
        (omega (arith, length-append s.devices (d ∷ [])))

  update_ok :
      (id : WString) (d e : DeviceSettings)
      → find_device s.devices id ≡ some d
      → e.id ≡ d.id
      → device_ok e ≡ true
      → is_persistable (record s { devices = update_device s.devices id e }) ≡ true
  update_ok id d e found same_id ok =
      with_devices (update_device s.devices id e)
        (devices_ok-update_device [] s.devices id d e ok_devices.0 ok
          (same_id ∙ (find_device-ok [] s.devices id d ok_devices.0 found).0) found)
        (omega (arith, ok_devices.1, length-update_device s.devices id e))

  found_ok :
      (id : WString) (d : DeviceSettings) → find_device s.devices id ≡ some d → device_ok d ≡ true
  found_ok id d found = (find_device-ok [] s.devices id d ok_devices.0 found).1

  remember_device_ok :
      (id name : WString)
      → admits (remember id name) ≡ true
      → is_persistable (remember_device id name s).0 ≡ true
  unfolding remember_device admits
  remember_device_ok id name a = elim (Option-cases (find_device s.devices id)) [
    | inl absent ↦
        rw (absent, remember_device)
          (ground (
            arith,
            v,
            append_ok (new_device s id name []),
            nil-bounded max_device_alias_characters,
            ok_devices,
          ))
    | inr (d, found) ↦ rw (found, remember_device) v
  ]

  device_connect_ok :
      (id : WString) (e : Bool) → is_persistable (set_device_connect_on_startup id e s).0 ≡ true
  unfolding set_device_connect_on_startup
  device_connect_ok id e = elim (Option-cases (find_device s.devices id)) [
    | inl absent ↦ rw (absent, set_device_connect_on_startup) v
    | inr (d, found) ↦
        rw (found, set_device_connect_on_startup)
          (update_ok id d (record d { connect_on_startup = e }) found refl (found_ok id d found))
  ]

  device_reconnect_ok :
      (id : WString) (e : Bool)
      → is_persistable (set_device_reconnect_on_connection_loss id e s).0 ≡ true
  unfolding set_device_reconnect_on_connection_loss
  device_reconnect_ok id e = elim (Option-cases (find_device s.devices id)) [
    | inl absent ↦ rw (absent, set_device_reconnect_on_connection_loss) v
    | inr (d, found) ↦
        rw (found, set_device_reconnect_on_connection_loss)
          (update_ok id d (record d { reconnect_on_connection_loss = e }) found refl
            (found_ok id d found))
  ]

  device_alias_ok :
      (id alias : WString) (name : Option WString)
      → admits (device_alias id alias name) ≡ true
      → is_persistable (set_device_alias id alias name s).0 ≡ true
  unfolding set_device_alias admits
  device_alias_ok id alias name a = elim (Option-cases (find_device s.devices id)) [
    | inl absent ↦
        rw (absent, set_device_alias)
          (ground (
            arith,
            v,
            append_ok (new_device s id (value_or_empty name) alias),
            nil-bounded max_device_name_characters,
            ok_devices,
          ))
    | inr (d, found) ↦
        rw (found, set_device_alias)
          (update_ok id d
            (record d {
              alias = alias;
              name = if renames name d then value_or_empty name else d.name;
            })
            found refl (ground (arith, found_ok id d found)))
  ]

  forget_ok :
      (id : WString) → admits (forget id) ≡ true → is_persistable (forget_device id s).0 ≡ true
  unfolding forget_device admits is_persistable
  forget_ok id a = ground (
    arith,
    v,
    nil-bounded max_device_id_characters,
    devices_ok-erase_device [] s.devices id,
    ids_ok-erase_id [] s.last_connected_ids id,
    ids_ok-tail [] (erase_id s.last_connected_ids id) id,
    length-erase_device s.devices id,
    length-erase_id s.last_connected_ids id,
  )

  connected_devices_ok :
      (id name day : WString)
      → admits (connected id name day) ≡ true
      → DevicesOk (record s { devices = (connected_devices id name s).0 })
  unfolding connected_devices admits
  connected_devices_ok id name day a = elim (Option-cases (find_device s.devices id)) [
    | inl absent ↦
        rw (absent, connected_devices)
          (ground (
            arith,
            ok_devices,
            devices_ok-append [] s.devices (new_device s id name []),
            length-append s.devices (new_device s id name [] ∷ []),
            nil-bounded max_device_alias_characters,
          ))
    | inr (d, found) ↦
        rw (found, connected_devices)
          (ground (
            arith,
            ok_devices,
            find_device-ok [] s.devices id d,
            devices_ok-update_device [] s.devices id d (record d { name = name }),
            length-update_device s.devices id (record d { name = name }),
          ))
  ]

  connected_ids_ok :
      (id : WString)
      → id_ok id ≡ true
      → (ids_ok [] (connected_ids id s.last_connected_ids) ≡ true)
        × (length (connected_ids id s.last_connected_ids) ≤ max_persisted_device_count)
  unfolding connected_ids is_persistable ids_ok
  connected_ids_ok id ok = ground (
    arith,
    v,
    ids_ok-erase_id [] s.last_connected_ids id,
    length-erase_id s.last_connected_ids id,
    ids_ok-drop_last [] (id ∷ erase_id s.last_connected_ids id),
    length-drop_last (id ∷ erase_id s.last_connected_ids id),
  )

  connected_ok :
      (id name day : WString)
      → admits (connected id name day) ≡ true
      → is_persistable (record_connected_device id name day s).0 ≡ true
  unfolding record_connected_device admits is_persistable
  connected_ok id name day a =
      ground (arith, v, connected_devices_ok id name day a, connected_ids_ok id)

  -- The mutations that leave the devices and the history alone.
  plain_ok :
      (e : Bool)
      → (is_persistable (set_global_connect_on_startup e s).0 ≡ true)
        × (is_persistable (set_global_reconnect_on_connection_loss e s).0 ≡ true)
        × (is_persistable (set_allow_incoming_connections e s).0 ≡ true)
        × (is_persistable (set_start_with_windows e s).0 ≡ true)
        × (is_persistable (set_show_notifications e s).0 ≡ true)
        × (is_persistable (set_use_system_backdrop_effects e s).0 ≡ true)
        × (is_persistable (set_privacy_mode_enabled e s).0 ≡ true)
  unfolding is_persistable set_global_connect_on_startup set_global_reconnect_on_connection_loss
      set_allow_incoming_connections set_start_with_windows set_show_notifications
      set_use_system_backdrop_effects set_privacy_mode_enabled
  plain_ok e = (v, v, v, v, v, v, v)

-- From settings that may be written, every mutation whose arguments pass the checks of its operation
-- leads to settings that may be written: lengths, identifiers that are distinct, bounded and well
-- formed, window bounds, language, and a default device exactly in the mode for one.
pub edit-IsPersistable :
    (r : Request) (s : SettingsData)
    → admits r ≡ true
    → is_persistable s ≡ true
    → is_persistable (edit r s).0 ≡ true
unfolding edit
edit-IsPersistable (global_connect e) s a v = (plain_ok s v e).0
edit-IsPersistable (global_reconnect e) s a v = (plain_ok s v e).1
edit-IsPersistable (incoming e) s a v = (plain_ok s v e).2
edit-IsPersistable (startup e) s a v = (plain_ok s v e).3
edit-IsPersistable (notify e) s a v = (plain_ok s v e).4
edit-IsPersistable (backdrop e) s a v = (plain_ok s v e).5
edit-IsPersistable (privacy e) s a v = (plain_ok s v e).6
edit-IsPersistable (language l) s a v = unfold admits set_language is_persistable in ground arith
edit-IsPersistable (first_launch today) s a v =
    unfold record_rating_prompt_first_launch is_persistable in ground arith
edit-IsPersistable asked s a v = unfold mark_rating_prompt_asked is_persistable in v
edit-IsPersistable (window_bounds b) s a v =
    unfold admits set_settings_window_bounds is_persistable in ground arith
edit-IsPersistable (remember id name) s a v = remember_device_ok s v id name a
edit-IsPersistable (device_connect id e) s a v = device_connect_ok s v id e
edit-IsPersistable (device_reconnect id e) s a v = device_reconnect_ok s v id e
edit-IsPersistable (device_alias id alias name) s a v = device_alias_ok s v id alias name a
edit-IsPersistable (default_set id) s a v =
    unfold admits set_default_device is_persistable in ground arith
edit-IsPersistable default_clear s a v =
    unfold clear_default_device is_persistable in
    ground (arith, nil-bounded max_device_id_characters)
edit-IsPersistable (forget id) s a v = forget_ok s v id a
edit-IsPersistable (connected id name day) s a v = connected_ok s v id name day a
