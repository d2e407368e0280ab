-- ===== src/Settings/Codec/Switches.antt =====
-- What becomes of the old switches of a legacy settings file: the migration of DecodePersisted in
-- AudioPlaybackConnector2/src/core/SettingsCodec.cpp.
use audio_playback_connector.Prelude.{
  throws, subst, List, false, ◌≡◌, ◌∙◌, sym, Option, none, some, refl, Bool-cases, Option-cases,
  inl, inr, Gives, gives, Gives-bind, Gives-require, Gives-some, is_some,
}
use audio_playback_connector.Text.{same, wide}
use audio_playback_connector.Text.Utf16.{WString-discrete}
use audio_playback_connector.Settings.Codec.Json.{
  null, text, decimal, boolean, no_items, item, Items, number, array, Bytes, Json, object, Fields,
  find,
}
use audio_playback_connector.Settings.Codec.Legacy.{
  migrate_device, migrate_rows, migrate_array, completed, set_missing, split_switch,
  migrate_devices, migrate, is_boolean,
}
use audio_playback_connector.Settings.Codec.Read.{schema_version, object_of, known_keys}
use audio_playback_connector.Settings.Codec.Fields.{
  find-set, find-set-other, find-erase, find-erase-other,
}

-- The first value there is.
abbrev pub first_of : Option Json → Option Json → Option Json
first_of none o = o
first_of (some j) o = some j

-- `fs'` has the two new switches of `fs`, or the old one in their place, no old one, and the
-- other keys as they were.
pub record IsSplit (old startup reconnect : Bytes) (fs fs' : Fields) : Type 0 where
  pub startup_kept : find startup fs' ≡ first_of (find startup fs) (find old fs)
  pub reconnect_kept : find reconnect fs' ≡ first_of (find reconnect fs) (find old fs)
  pub old_gone : find old fs' ≡ none
  pub others_kept :
      (k : Bytes)
      → same k old ≡ false
      → same k startup ≡ false
      → same k reconnect ≡ false
      → find k fs' ≡ find k fs

first_of-none : (o : Option Json) → o ≡ first_of o none
first_of-none none = refl
first_of-none (some j) = refl

find-set_missing :
    (k : Bytes) (v : Json) (fs : Fields)
    → find k (set_missing k v fs) ≡ first_of (find k fs) (some v)
unfolding set_missing
find-set_missing k v fs = elim (Option-cases (find k fs)) [
  | inl e ↦ rw (e) (find-set k v fs)
  | inr (j, e) ↦ rw (e, e) refl
]

find-set_missing-other :
    (k k' : Bytes) (v : Json) (fs : Fields)
    → same k k' ≡ false
    → find k (set_missing k' v fs) ≡ find k fs
unfolding set_missing
find-set_missing-other k k' v fs d = elim (Bool-cases (is_some (find k' fs))) [
  | inl e ↦ rw (e) refl
  | inr e ↦ rw (e) (find-set-other k k' v fs d)
]

split_switch-IsSplit :
    (old startup reconnect : Bytes) (fs : Fields)
    → same startup old ≡ false
    → same reconnect old ≡ false
    → same startup reconnect ≡ false
    → same reconnect startup ≡ false
    → Gives (IsSplit old startup reconnect fs) (split_switch old startup reconnect fs)
unfolding split_switch
split_switch-IsSplit old startup reconnect fs so ro sr rs = elim (Option-cases (find old fs)) [
  | inl e ↦
      rw (e, split_switch)
        (gives (record {
          startup_kept = rw (e) (first_of-none (find startup fs));
          reconnect_kept = rw (e) (first_of-none (find reconnect fs));
          old_gone = e;
          others_kept = λ k a b c. refl;
        }))
  | inr (v, e) ↦
      rw (e, split_switch)
        (Gives-require (is_boolean v) λ b. gives (record {
          startup_kept =
              find-erase-other startup old _ so
              ∙ find-set_missing-other startup reconnect v _ sr
              ∙ rw (e) (find-set_missing startup v fs);
          reconnect_kept =
              find-erase-other reconnect old _ ro
              ∙ find-set_missing reconnect v _
              ∙ rw (e, find-set_missing-other reconnect startup v fs rs) refl;
          old_gone = find-erase old _;
          others_kept = λ k a b c.
              find-erase-other k old _ a
              ∙ find-set_missing-other k reconnect v _ c
              ∙ find-set_missing-other k startup v fs b;
        }))
]

object_of-same :
    (keys : List Bytes) (fs : Fields) → Gives (λ fs'. fs' ≡ fs) (object_of keys (object fs))
unfolding object_of
object_of-same keys fs = Gives-require (known_keys keys fs) (λ h. gives refl)

-- A row of the devices, and the row that it becomes.
pub data Row : Json → Json → Type 0 where
  row :
      {fs fs' : Fields}
      → IsSplit
          (wide "autoReconnect")
          (wide "connectOnStartup")
          (wide "reconnectOnConnectionLoss")
          fs
          fs'
      → Row (object fs) (object fs')

pub data Rows : Items → Items → Type 0 where
  no_rows : Rows no_items no_items
  more_rows :
      {j j' : Json} {is is' : Items} → Row j j' → Rows is is' → Rows (item j is) (item j' is')

-- The devices of a document, and what they become.
pub data Devices : Option Json → Option Json → Type 0 where
  no_devices : Devices none none
  devices : {is is' : Items} → Rows is is' → Devices (some (array is)) (some (array is'))

migrate_device-Row : (j : Json) → Gives (Row j) (migrate_device j)
unfolding migrate_device WString-discrete
migrate_device-Row (object fs) =
    Gives-bind (split_switch-IsSplit _ _ _ fs refl refl refl refl) λ fs' s. gives (row s)
migrate_device-Row null = throws
migrate_device-Row (boolean b) = throws
migrate_device-Row (number z) = throws
migrate_device-Row (decimal w) = throws
migrate_device-Row (text w) = throws
migrate_device-Row (array is) = throws

migrate_rows-Rows : (is : Items) → Gives (Rows is) (migrate_rows is)
unfolding migrate_rows
migrate_rows-Rows no_items = gives no_rows
migrate_rows-Rows (item j is) =
    Gives-bind (migrate_device-Row j)
      λ j' r. Gives-bind (migrate_rows-Rows is) λ is' rs. gives (more_rows r rs)

migrate_array-Devices : (j : Json) → Gives (λ j'. Devices (some j) (some j')) (migrate_array j)
unfolding migrate_array
migrate_array-Devices (array is) = Gives-bind (migrate_rows-Rows is) λ is' r. gives (devices r)
migrate_array-Devices (object fs) = throws
migrate_array-Devices null = throws
migrate_array-Devices (boolean b) = throws
migrate_array-Devices (number z) = throws
migrate_array-Devices (decimal w) = throws
migrate_array-Devices (text w) = throws

-- Only the devices change.
record OnlyDevices (fs fs' : Fields) : Type 0 where
  changed : Devices (find (wide "devices") fs) (find (wide "devices") fs')
  kept : (k : Bytes) → same k (wide "devices") ≡ false → find k fs' ≡ find k fs

migrate_devices-OnlyDevices : (fs : Fields) → Gives (OnlyDevices fs) (migrate_devices fs)
unfolding migrate_devices
migrate_devices-OnlyDevices fs = elim (Option-cases (find (wide "devices") fs)) [
  | inl e ↦
      rw (e, migrate_devices) (gives (record { changed = rw (e) no_devices; kept = λ k d. refl }))
  | inr (v, e) ↦
      rw (e, migrate_devices)
        (Gives-bind (migrate_array-Devices v) λ rows r. gives (record {
          changed = rw (e, find-set (wide "devices") rows fs) r;
          kept = λ k d. find-set-other k (wide "devices") rows fs d;
        }))
]

-- The last three steps leave a key alone that they do not name.
completed-find :
    (k : Bytes) (fs : Fields)
    → same k (wide "lastUpdateCheckUnixSeconds") ≡ false
    → same k (wide "lastNotifiedUpdateVersion") ≡ false
    → same k (wide "schemaVersion") ≡ false
    → find k (completed fs) ≡ find k fs
unfolding completed
completed-find k fs a b c =
    find-set-other k _ _ _ c ∙ find-erase-other k _ _ b ∙ find-erase-other k _ _ a

completed-version :
    (fs : Fields) → find (wide "schemaVersion") (completed fs) ≡ some (number schema_version)
unfolding completed
completed-version fs = find-set _ _ _

-- A legacy document, and the one that it becomes.
pub record IsMigrated (fs fs' : Fields) : Type 0 where
  pub startup :
      find (wide "globalConnectOnStartup") fs'
      ≡ first_of (find (wide "globalConnectOnStartup") fs) (find (wide "globalAutoReconnect") fs)
  pub reconnect :
      find (wide "globalReconnectOnConnectionLoss") fs'
      ≡ first_of
          (find (wide "globalReconnectOnConnectionLoss") fs)
          (find (wide "globalAutoReconnect") fs)
  pub old_gone : find (wide "globalAutoReconnect") fs' ≡ none
  pub rows : Devices (find (wide "devices") fs) (find (wide "devices") fs')
  pub version : find (wide "schemaVersion") fs' ≡ some (number schema_version)

-- The migrated document has the current version, and the two new switches as the legacy document sets
-- them or, where it does not, as it sets the old one, which it has no more; and where there are devices,
-- each row of them has, in the same place, its own two switches likewise, and the row's other keys as
-- they were.
pub migrate-IsMigrated : (fs fs' : Fields) → migrate (object fs) ≡ some fs' → IsMigrated fs fs'
unfolding migrate WString-discrete
migrate-IsMigrated fs fs' h = Gives-some (migrated fs) h
  where
    migrated : (fs : Fields) → Gives (IsMigrated fs) (migrate (object fs))
    migrated fs = Gives-bind (object_of-same _ fs) λ known k.
        Gives-bind (split_switch-IsSplit _ _ _ known refl refl refl refl) λ switched s.
          Gives-bind (migrate_devices-OnlyDevices switched) λ rows r. gives (
            rw (sym k) (record {
              startup = completed-find _ rows refl refl refl ∙ r.kept _ refl ∙ s.startup_kept;
              reconnect = completed-find _ rows refl refl refl ∙ r.kept _ refl ∙ s.reconnect_kept;
              old_gone = completed-find _ rows refl refl refl ∙ r.kept _ refl ∙ s.old_gone;
              rows = rw (completed-find (wide "devices") rows refl refl refl) (
                  subst (λ o. Devices o (find (wide "devices") rows))
                    (s.others_kept _ refl refl refl) r.changed);
              version = completed-version rows;
            }))
