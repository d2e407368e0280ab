-- ===== src/Settings/Lists.antt =====
-- The list operations of the settings mutations
-- (AudioPlaybackConnector2/src/core/SettingsStore.cpp): FindDevice, a write through its pointer, and
-- the erasures.
use audio_playback_connector.Prelude.{Option, none, some, List, [], ◌∷◌, if◌then◌else◌}
use audio_playback_connector.Text.{same}
use audio_playback_connector.Text.Utf16.{WString}
use audio_playback_connector.Settings.Data.{DeviceSettings}

-- FindDevice: the first device with the identifier.
unfoldable pub find_device : List DeviceSettings → WString → Option DeviceSettings
find_device [] id = none
find_device (d ∷ ds) id = if same d.id id then some d else find_device ds id

-- A write through the pointer that FindDevice returns.
unfoldable pub update_device : List DeviceSettings → WString → DeviceSettings → List DeviceSettings
update_device [] id e = []
update_device (d ∷ ds) id e = if same d.id id then e ∷ ds else d ∷ update_device ds id e

-- std::erase_if on the devices, std::erase on the history.
unfoldable pub erase_device : List DeviceSettings → WString → List DeviceSettings
erase_device [] id = []
erase_device (d ∷ ds) id = if same d.id id then erase_device ds id else d ∷ erase_device ds id

unfoldable pub erase_id : List WString → WString → List WString
erase_id [] id = []
erase_id (i ∷ is) id = if same i id then erase_id is id else i ∷ erase_id is id

-- pop_back.
unfoldable pub drop_last : List WString → List WString
drop_last [] = []
drop_last (i ∷ []) = []
drop_last (i ∷ j ∷ is) = i ∷ drop_last (j ∷ is)
