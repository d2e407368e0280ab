-- ===== src/Settings/Unique.antt =====
-- The validity loops under the list operations: identifiers stay valid and distinct.
use audio_playback_connector.Prelude.{
  ◌-◌, ◌≤◌, ◌≡◌, refl, true, false, none, some, List, [], ◌∷◌, ◌++◌, arith, length,
}
use audio_playback_connector.Text.{contains}
use audio_playback_connector.Text.Utf16.{WString, WString-discrete}
use audio_playback_connector.Settings.Data.{DeviceSettings}
use audio_playback_connector.Settings.Lists.{
  find_device, update_device, erase_device, erase_id, drop_last,
}
use audio_playback_connector.Settings.Persistable.{device_ok, devices_ok, ids_ok}

abbrev pub Within : List WString → List WString → Type 0
Within seen' seen = (x : WString) → contains seen' x ≡ true → contains seen x ≡ true

Within-cons :
    (seen' seen : List WString) (i : WString) → Within seen' seen → Within (i ∷ seen') (i ∷ seen)
Within-cons seen' seen i h x c = ground (arith, h x)

Within-tail : (seen : List WString) (i : WString) → Within seen (i ∷ seen)
Within-tail seen i x c = ground arith

Within-swap : (seen : List WString) (i j : WString) → Within (i ∷ j ∷ seen) (j ∷ i ∷ seen)
Within-swap seen i j x c = ground arith

Within-dedup : (seen : List WString) (i j : WString) → j ≡ i → Within (i ∷ seen) (i ∷ j ∷ seen)
Within-dedup seen i j e x c = ground arith

-- Fewer identifiers seen is weaker.
ids_ok_mono :
    (seen' seen is : List WString)
    → Within seen' seen
    → ids_ok seen is ≡ true
    → ids_ok seen' is ≡ true
unfolding ids_ok
ids_ok_mono seen' seen [] h v = refl
ids_ok_mono seen' seen (i ∷ is) h v =
    ground (arith, h i, ids_ok_mono (i ∷ seen') (i ∷ seen) is (Within-cons seen' seen i h))

pub ids_ok-erase_id :
    (seen is : List WString) (id : WString)
    → ids_ok seen is ≡ true
    → ids_ok (id ∷ seen) (erase_id is id) ≡ true
unfolding ids_ok erase_id
ids_ok-erase_id seen [] id v = refl
ids_ok-erase_id seen (i ∷ is) id v = elim (WString-discrete i id) [
  | yes e ↦ ground (
    arith,
    ids_ok_mono (id ∷ seen) (id ∷ i ∷ seen) (erase_id is id) (Within-dedup seen id i e),
    ids_ok-erase_id (i ∷ seen) is id,
  )
  | no n ↦ ground (
    arith,
    ids_ok_mono (i ∷ id ∷ seen) (id ∷ i ∷ seen) (erase_id is id) (Within-swap seen i id),
    ids_ok-erase_id (i ∷ seen) is id,
  )
]

pub ids_ok-tail :
    (seen is : List WString) (id : WString) → ids_ok (id ∷ seen) is ≡ true → ids_ok seen is ≡ true
ids_ok-tail seen is id = ids_ok_mono seen (id ∷ seen) is (Within-tail seen id)

pub ids_ok-drop_last :
    (seen is : List WString) → ids_ok seen is ≡ true → ids_ok seen (drop_last is) ≡ true
unfolding ids_ok drop_last
ids_ok-drop_last seen [] v = refl
ids_ok-drop_last seen (i ∷ []) v = refl
ids_ok-drop_last seen (i ∷ j ∷ is) v = ground (arith, ids_ok-drop_last (i ∷ seen) (j ∷ is))

devices_ok_mono :
    (seen' seen : List WString) (ds : List DeviceSettings)
    → Within seen' seen
    → devices_ok seen ds ≡ true
    → devices_ok seen' ds ≡ true
unfolding devices_ok
devices_ok_mono seen' seen [] h v = refl
devices_ok_mono seen' seen (d ∷ ds) h v =
    ground (
      arith,
      h d.id,
      devices_ok_mono (d.id ∷ seen') (d.id ∷ seen) ds (Within-cons seen' seen d.id h),
    )

pub devices_ok-erase_device :
    (seen : List WString) (ds : List DeviceSettings) (id : WString)
    → devices_ok seen ds ≡ true
    → devices_ok seen (erase_device ds id) ≡ true
unfolding devices_ok erase_device
devices_ok-erase_device seen [] id v = refl
devices_ok-erase_device seen (d ∷ ds) id v = ground (
  arith,
  devices_ok-erase_device (d.id ∷ seen) ds id,
  devices_ok_mono seen (d.id ∷ seen) (erase_device ds id) (Within-tail seen d.id),
)

-- A valid device whose identifier is new may be appended.
pub devices_ok-append :
    (seen : List WString) (ds : List DeviceSettings) (d : DeviceSettings)
    → devices_ok seen ds ≡ true
    → device_ok d ≡ true
    → contains seen d.id ≡ false
    → find_device ds d.id ≡ none
    → devices_ok seen (ds ++ d ∷ []) ≡ true
unfolding devices_ok find_device
devices_ok-append seen [] d v ok new absent = ground arith
devices_ok-append seen (e ∷ ds) d v ok new absent =
    ground (arith, devices_ok-append (e.id ∷ seen) ds d)

-- A found device may be replaced by a valid one with its identifier.
pub devices_ok-update_device :
    (seen : List WString) (ds : List DeviceSettings) (id : WString) (d e : DeviceSettings)
    → devices_ok seen ds ≡ true
    → device_ok e ≡ true
    → e.id ≡ id
    → find_device ds id ≡ some d
    → devices_ok seen (update_device ds id e) ≡ true
unfolding devices_ok find_device update_device
devices_ok-update_device seen [] id d e v ok same_id found = cc
devices_ok-update_device seen (x ∷ ds) id d e v ok same_id found =
    ground (arith, devices_ok-update_device (x.id ∷ seen) ds id d e)

-- A found device has the identifier, and is valid as all are.
pub find_device-ok :
    (seen : List WString) (ds : List DeviceSettings) (id : WString) (d : DeviceSettings)
    → devices_ok seen ds ≡ true
    → find_device ds id ≡ some d
    → (d.id ≡ id) × (device_ok d ≡ true)
unfolding devices_ok find_device
find_device-ok seen [] id d v found = cc
find_device-ok seen (x ∷ ds) id d v found = ground (arith, find_device-ok (x.id ∷ seen) ds id d)

pub length-update_device :
    (ds : List DeviceSettings) (id : WString) (e : DeviceSettings)
    → length (update_device ds id e) ≡ length ds
unfolding update_device
length-update_device [] id e = refl
length-update_device (d ∷ ds) id e = ground (arith, length-update_device ds id e)

pub length-erase_device :
    (ds : List DeviceSettings) (id : WString) → length (erase_device ds id) ≤ length ds
unfolding erase_device
length-erase_device [] id = omega arith
length-erase_device (d ∷ ds) id = ground (arith, length-erase_device ds id)

pub length-erase_id : (is : List WString) (id : WString) → length (erase_id is id) ≤ length is
unfolding erase_id
length-erase_id [] id = omega arith
length-erase_id (i ∷ is) id = ground (arith, length-erase_id is id)

pub length-drop_last : (is : List WString) → length (drop_last is) ≡ length is - 1
unfolding drop_last
length-drop_last [] = omega arith
length-drop_last (i ∷ []) = omega arith
length-drop_last (i ∷ j ∷ is) = omega (arith, length-drop_last (j ∷ is))
