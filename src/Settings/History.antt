-- ===== src/Settings/History.antt =====
-- What a connection and a "forget" do to the settings as a user sees them.
-- The history is most recent first; a forgotten device leaves no trace.
use audio_playback_connector.Prelude.{
  suc, ltb, All, ◌<◌, ◌≢◌, ◌≡◌, refl, true, none, some, [], ◌∷◌, ◌++◌, inl, inr, arith, length,
  Option, if◌then◌else◌, List, Option-cases,
}
use audio_playback_connector.Text.{same, is_empty}
use audio_playback_connector.Text.Utf16.{WString}
use audio_playback_connector.Settings.Data.{
  DeviceSettings, SettingsData, max_persisted_device_count,
}
use audio_playback_connector.Settings.Lists.{
  find_device, update_device, erase_device, erase_id, drop_last,
}
use audio_playback_connector.Settings.Persistable.{id_ok}
use audio_playback_connector.Settings.Edit.{
  forget_device, record_connected_device, connected_devices, connected_ids, new_device,
}

-- Every entry of the history but the forgotten one stays, in its order.
abbrev pub Absent : WString → List WString → Type 0
Absent id = All (λ i. i ≢ id)

erase_id-Absent : (is : List WString) (id : WString) → Absent id (erase_id is id)
unfolding erase_id
erase_id-Absent [] id = tt
erase_id-Absent (i ∷ is) id = ground (arith, erase_id-Absent is id)

erase_device-Absent :
    (ds : List DeviceSettings) (id : WString) → All (λ d. d.id ≢ id) (erase_device ds id)
unfolding erase_device
erase_device-Absent [] id = tt
erase_device-Absent (d ∷ ds) id = ground (arith, erase_device-Absent ds id)

find_device-erase_device :
    (ds : List DeviceSettings) (id j : WString)
    → j ≢ id
    → find_device (erase_device ds id) j ≡ find_device ds j
unfolding find_device erase_device
find_device-erase_device [] id j h = refl
find_device-erase_device (d ∷ ds) id j h = ground (arith, find_device-erase_device ds id j)

find_device-erase_device_self :
    (ds : List DeviceSettings) (id : WString) → find_device (erase_device ds id) id ≡ none
unfolding find_device erase_device
find_device-erase_device_self [] id = refl
find_device-erase_device_self (d ∷ ds) id = ground (arith, find_device-erase_device_self ds id)

-- After "forget" the device is in neither list and is not the default; every other device is found as
-- before.
pub forget_device_lem :
    (id j : WString) (s : SettingsData)
    → id_ok id ≡ true
    → let t = (forget_device id s).0 in
      All (λ d. d.id ≢ id) t.devices
      × Absent id t.last_connected_ids
      × (t.default_device_id ≢ id)
      × (find_device t.devices j ≡ (if same j id then none else find_device s.devices j))
unfolding forget_device
forget_device_lem id j s ok = (
  erase_device-Absent s.devices id,
  erase_id-Absent s.last_connected_ids id,
  ground arith,
  ground
      (arith, find_device-erase_device s.devices id j, find_device-erase_device_self s.devices id),
)

find_device-append :
    (ds : List DeviceSettings) (d : DeviceSettings)
    → find_device ds d.id ≡ none
    → find_device (ds ++ d ∷ []) d.id ≡ some d
unfolding find_device
find_device-append [] d h = ground arith
find_device-append (e ∷ ds) d h = ground (arith, find_device-append ds d)

find_device-update :
    (ds : List DeviceSettings) (id : WString) (d e : DeviceSettings)
    → find_device ds id ≡ some d
    → e.id ≡ id
    → find_device (update_device ds id e) id ≡ some e
unfolding find_device update_device
find_device-update [] id d e f i = cc
find_device-update (x ∷ ds) id d e f i = ground (arith, find_device-update ds id d e)

find_device-append_ne :
    (ds : List DeviceSettings) (d : DeviceSettings) (j : WString)
    → j ≢ d.id
    → find_device (ds ++ d ∷ []) j ≡ find_device ds j
unfolding find_device
find_device-append_ne [] d j h = ground arith
find_device-append_ne (e ∷ ds) d j h = ground (arith, find_device-append_ne ds d j)

find_device-update_ne :
    (ds : List DeviceSettings) (id j : WString) (e : DeviceSettings)
    → j ≢ id
    → e.id ≡ id
    → find_device (update_device ds id e) j ≡ find_device ds j
unfolding find_device update_device
find_device-update_ne [] id j e h i = refl
find_device-update_ne (x ∷ ds) id j e h i = ground (arith, find_device-update_ne ds id j e)

find_device-id :
    (ds : List DeviceSettings) (id : WString) (d : DeviceSettings)
    → find_device ds id ≡ some d
    → d.id ≡ id
unfolding find_device
find_device-id [] id d f = cc
find_device-id (x ∷ ds) id d f = ground (arith, find_device-id ds id d)

-- The history without the device, cut where the device at its head made it too long.
abbrev pub older : WString → List WString → List WString
older id is =
    if ltb max_persisted_device_count (suc (length (erase_id is id)))
    then drop_last (erase_id is id)
    else erase_id is id

drop_last-cons :
    (id : WString) (is : List WString) → 0 < length is → drop_last (id ∷ is) ≡ id ∷ drop_last is
unfolding drop_last
drop_last-cons id [] h = absurd (omega arith)
drop_last-cons id (i ∷ is) h = refl

drop_last-Absent : (id : WString) (is : List WString) → Absent id is → Absent id (drop_last is)
unfolding drop_last
drop_last-Absent id [] h = tt
drop_last-Absent id (i ∷ []) h = tt
drop_last-Absent id (i ∷ j ∷ is) h = (h.0, drop_last-Absent id (j ∷ is) h.1)

-- The entry that a connected device has: the old one, under the new name if one is given; or a fresh
-- one, if there is room.
abbrev pub connected_entry : WString → WString → SettingsData → Option DeviceSettings
connected_entry id name s = elim (find_device s.devices id) [
  | none ↦
      if ltb (length s.devices) max_persisted_device_count
      then some (new_device s id name [])
      else none
  | some d ↦ some (record d { name = if is_empty name then d.name else name })
]

connected_devices_lem :
    (id name j : WString) (s : SettingsData)
    → find_device (connected_devices id name s).0 j
      ≡ (if same j id then connected_entry id name s else find_device s.devices j)
unfolding connected_devices
connected_devices_lem id name j s = elim (Option-cases (find_device s.devices id)) [
  | inl absent ↦
      rw (absent, connected_devices)
        (ground (
          arith,
          absent,
          find_device-append s.devices (new_device s id name []),
          find_device-append_ne s.devices (new_device s id name []) j,
        ))
  | inr (d, found) ↦
      rw (found, connected_devices)
        (ground (
          arith,
          found,
          find_device-update s.devices id d (record d { name = name }),
          find_device-update_ne s.devices id j (record d { name = name }),
          find_device-id s.devices id d,
        ))
]

-- After a connection the device heads the history and stands nowhere else in it, and the others
-- follow in their order, the oldest dropped where the limit is passed. The device's entry keeps alias
-- and preferences and takes a name that is given; a device with no entry gets one with the global
-- preferences, if there is room. All other entries stay.
pub record_connected_device_lem :
    (id name day j : WString) (s : SettingsData)
    → let t = (record_connected_device id name day s).0 in
      (t.last_connected_ids ≡ id ∷ older id s.last_connected_ids)
      × Absent id (older id s.last_connected_ids)
      × (find_device t.devices j
          ≡ (if same j id then connected_entry id name s else find_device s.devices j))
unfolding record_connected_device connected_ids
record_connected_device_lem id name day j s = (
  ground (arith, drop_last-cons id (erase_id s.last_connected_ids id)),
  ground (
    arith,
    erase_id-Absent s.last_connected_ids id,
    drop_last-Absent id (erase_id s.last_connected_ids id),
  ),
  connected_devices_lem id name j s,
)
