-- ===== src/Settings/Changed.antt =====
-- The flag "changed" of every mutation is exact, so that a commit makes a new revision exactly where
-- the settings differ.
use audio_playback_connector.Prelude.{
  ◌⊎◌, false, ◌≢◌, ap, ◌≡◌, refl, true, some, [], ◌∷◌, ◌++◌, inl, inr, arith, length, Bool, Option,
  if◌then◌else◌, List, Option-cases, length-append,
}
use audio_playback_connector.Text.Utf16.{WString}
use audio_playback_connector.Settings.Data.{DeviceSettings, SettingsData, PersistedWindowBounds}
use audio_playback_connector.Settings.Lists.{find_device, update_device, erase_device, erase_id}
use audio_playback_connector.Settings.Unique.{length-erase_device, length-erase_id}
use audio_playback_connector.Settings.Edit.{
  set_global_connect_on_startup, set_global_reconnect_on_connection_loss,
  set_allow_incoming_connections, set_start_with_windows, set_show_notifications,
  set_use_system_backdrop_effects, set_language, set_privacy_mode_enabled,
  record_rating_prompt_first_launch, mark_rating_prompt_asked, set_settings_window_bounds,
  remember_device, set_device_connect_on_startup, set_device_reconnect_on_connection_loss,
  set_device_alias, set_default_device, clear_default_device, forget_device,
  record_connected_device, connected_devices, counts_usage_day, value_or_empty, renames, new_device,
}
use audio_playback_connector.Settings.Request.{
  Request, global_connect, global_reconnect, incoming, startup, notify, backdrop, privacy, language,
  first_launch, asked, window_bounds, remember, device_connect, device_reconnect, device_alias,
  default_set, default_clear, forget, connected, admits, edit,
}

-- "Unchanged" with the settings as they were, or "changed" with others.
abbrev pub Exact : SettingsData → SettingsData × Bool → Type 0
Exact s r = ((r.1 ≡ false) × (r.0 ≡ s)) ⊎ ((r.1 ≡ true) × (r.0 ≢ s))

update_device_self :
    (ds : List DeviceSettings) (id : WString) (d : DeviceSettings)
    → find_device ds id ≡ some d
    → update_device ds id d ≡ ds
unfolding find_device update_device
update_device_self [] id d e = refl
update_device_self (x ∷ ds) id d e = ground (arith, update_device_self ds id d)

-- After a write the device found is the written one.
update_device_lem :
    (ds : List DeviceSettings) (id : WString) (d e : DeviceSettings)
    → find_device ds id ≡ some d
    → update_device ds id e ≡ ds
    → e ≡ d
unfolding find_device update_device
update_device_lem [] id d e f u = cc
update_device_lem (x ∷ ds) id d e f u = ground (arith, update_device_lem ds id d e)

erase_device_same :
    (ds : List DeviceSettings) (id : WString)
    → length (erase_device ds id) ≡ length ds
    → erase_device ds id ≡ ds
unfolding erase_device
erase_device_same [] id e = refl
erase_device_same (d ∷ ds) id e = ground (arith, length-erase_device ds id, erase_device_same ds id)

erase_id_same :
    (is : List WString) (id : WString) → length (erase_id is id) ≡ length is → erase_id is id ≡ is
unfolding erase_id
erase_id_same [] id e = refl
erase_id_same (i ∷ is) id e = ground (arith, length-erase_id is id, erase_id_same is id)

append-ne : (ds : List DeviceSettings) (d : DeviceSettings) → ds ++ d ∷ [] ≢ ds
append-ne ds d e = omega (arith, ap length e, length-append ds (d ∷ []))

module _ (s : SettingsData) where
  plain-Exact :
      (e : Bool)
      → Exact s (set_global_connect_on_startup e s)
        × Exact s (set_global_reconnect_on_connection_loss e s)
        × Exact s (set_allow_incoming_connections e s)
        × Exact s (set_start_with_windows e s)
        × Exact s (set_show_notifications e s)
        × Exact s (set_use_system_backdrop_effects e s)
        × Exact s (set_privacy_mode_enabled e s)
  unfolding set_global_connect_on_startup set_global_reconnect_on_connection_loss
      set_allow_incoming_connections set_start_with_windows set_show_notifications
      set_use_system_backdrop_effects set_privacy_mode_enabled
  plain-Exact e = (
    ground arith,
    ground arith,
    ground arith,
    ground arith,
    ground arith,
    ground arith,
    ground arith,
  )

  text-Exact : (l : WString) → Exact s (set_language l s)
  unfolding set_language
  text-Exact l = ground arith

  bounds-Exact : (b : Option PersistedWindowBounds) → Exact s (set_settings_window_bounds b s)
  unfolding set_settings_window_bounds
  bounds-Exact b = ground arith

  first_launch-Exact : (today : WString) → Exact s (record_rating_prompt_first_launch today s)
  unfolding record_rating_prompt_first_launch
  first_launch-Exact today = ground arith

  asked-Exact : Exact s (mark_rating_prompt_asked s)
  unfolding mark_rating_prompt_asked
  asked-Exact = ground arith

  default_set-Exact : (id : WString) → Exact s (set_default_device id s)
  unfolding set_default_device
  default_set-Exact id = ground arith

  default_clear-Exact : Exact s (clear_default_device s)
  unfolding clear_default_device
  default_clear-Exact = ground arith

  remember-Exact : (id name : WString) → Exact s (remember_device id name s)
  unfolding remember_device
  remember-Exact id name = elim (Option-cases (find_device s.devices id)) [
    | inl absent ↦
        rw (absent, remember_device) (ground (arith, append-ne s.devices (new_device s id name [])))
    | inr (d, found) ↦ rw (found, remember_device) (inl (refl, refl))
  ]

  device_connect-Exact : (id : WString) (e : Bool) → Exact s (set_device_connect_on_startup id e s)
  unfolding set_device_connect_on_startup
  device_connect-Exact id e = elim (Option-cases (find_device s.devices id)) [
    | inl absent ↦ rw (absent, set_device_connect_on_startup) (inl (refl, refl))
    | inr (d, found) ↦
        rw (found, set_device_connect_on_startup)
          (ground (
            arith,
            update_device_self s.devices id d,
            update_device_lem s.devices id d (record d { connect_on_startup = e }),
          ))
  ]

  device_reconnect-Exact :
      (id : WString) (e : Bool) → Exact s (set_device_reconnect_on_connection_loss id e s)
  unfolding set_device_reconnect_on_connection_loss
  device_reconnect-Exact id e = elim (Option-cases (find_device s.devices id)) [
    | inl absent ↦ rw (absent, set_device_reconnect_on_connection_loss) (inl (refl, refl))
    | inr (d, found) ↦
        rw (found, set_device_reconnect_on_connection_loss)
          (ground (
            arith,
            update_device_self s.devices id d,
            update_device_lem s.devices id d (record d { reconnect_on_connection_loss = e }),
          ))
  ]

  device_alias-Exact :
      (id alias : WString) (name : Option WString) → Exact s (set_device_alias id alias name s)
  unfolding set_device_alias
  device_alias-Exact id alias name = elim (Option-cases (find_device s.devices id)) [
    | inl absent ↦
        rw (absent, set_device_alias)
          (ground (arith, append-ne s.devices (new_device s id (value_or_empty name) alias)))
    | inr (d, found) ↦
        rw (found, set_device_alias)
          (ground (
            arith,
            update_device_self s.devices id d,
            update_device_lem s.devices id d (record d {
              alias = alias;
              name = if renames name d then value_or_empty name else d.name;
            }),
          ))
  ]

  forget-Exact : (id : WString) → admits (forget id) ≡ true → Exact s (forget_device id s)
  unfolding forget_device admits
  forget-Exact id a = ground (
    arith,
    ap {A = List DeviceSettings} length {x = erase_device s.devices id} {y = s.devices},
    erase_device_same s.devices id,
    erase_id_same s.last_connected_ids id,
    length-erase_device s.devices id,
    length-erase_id s.last_connected_ids id,
  )

  connected_devices-Exact :
      (id name : WString)
      → let r = connected_devices id name s in
        ((r.1 ≡ false) × (r.0 ≡ s.devices)) ⊎ ((r.1 ≡ true) × (r.0 ≢ s.devices))
  unfolding connected_devices
  connected_devices-Exact id name = elim (Option-cases (find_device s.devices id)) [
    | inl absent ↦
        rw (absent, connected_devices)
          (ground (arith, append-ne s.devices (new_device s id name [])))
    | inr (d, found) ↦
        rw (found, connected_devices)
          (ground (arith, update_device_lem s.devices id d (record d { name = name })))
  ]

  connected-Exact : (id name day : WString) → Exact s (record_connected_device id name day s)
  unfolding record_connected_device counts_usage_day
  connected-Exact id name day = ground (arith, connected_devices-Exact id name)

-- Every admitted mutation reports "unchanged" and leaves the settings as they were, or reports
-- "changed" and makes them different.
pub edit-Exact : (r : Request) (s : SettingsData) → admits r ≡ true → Exact s (edit r s)
unfolding edit
edit-Exact (global_connect e) s a = (plain-Exact s e).0
edit-Exact (global_reconnect e) s a = (plain-Exact s e).1
edit-Exact (incoming e) s a = (plain-Exact s e).2
edit-Exact (startup e) s a = (plain-Exact s e).3
edit-Exact (notify e) s a = (plain-Exact s e).4
edit-Exact (backdrop e) s a = (plain-Exact s e).5
edit-Exact (privacy e) s a = (plain-Exact s e).6
edit-Exact (language l) s a = text-Exact s l
edit-Exact (first_launch today) s a = first_launch-Exact s today
edit-Exact asked s a = asked-Exact s
edit-Exact (window_bounds b) s a = bounds-Exact s b
edit-Exact (remember id name) s a = remember-Exact s id name
edit-Exact (device_connect id e) s a = device_connect-Exact s id e
edit-Exact (device_reconnect id e) s a = device_reconnect-Exact s id e
edit-Exact (device_alias id alias name) s a = device_alias-Exact s id alias name
edit-Exact (default_set id) s a = default_set-Exact s id
edit-Exact default_clear s a = default_clear-Exact s
edit-Exact (forget id) s a = forget-Exact s id a
edit-Exact (connected id name day) s a = connected-Exact s id name day
