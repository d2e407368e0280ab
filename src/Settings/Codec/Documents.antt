-- ===== src/Settings/Codec/Documents.antt =====
-- What Encode of AudioPlaybackConnector2/src/core/SettingsCodec.cpp builds, part by part, as Decode reads it.
use audio_playback_connector.Prelude.{
  ℕ, Bool, true, ◌&&◌, ◌≡◌, Option, none, some, List, [], ◌∷◌, leb, length, ◌>>=◌, ◌>>◌, arith,
  refl, subst, Option-cases, Bool-cases, inl, inr,
}
use audio_playback_connector.Text.Utf16.{
  WString, WString-discrete, is_valid_utf16, is_bounded_utf16,
}
use audio_playback_connector.Settings.Data.{
  DeviceSettings, DefaultDeviceMode, last_connected, specific_device, PersistedWindowBounds,
  RatingPromptData, SettingsData, int_max, max_persisted_device_count, is_supported_language,
  max_device_id_characters, max_device_name_characters, max_device_alias_characters,
}
use audio_playback_connector.Settings.Persistable.{is_persistable, window_ok, devices_ok, ids_ok}
use audio_playback_connector.Settings.Codec.Ascii.{
  is_ascii, date_ok-is_ascii, is_ascii-is_valid_utf16,
}
use audio_playback_connector.Settings.Codec.Json.{erase, JsonLibrary, set, before, find, size}
use audio_playback_connector.Settings.Codec.Read.{
  fits_int32, object_of, known_keys, text_of, as_text, integer_of, as_integer, switch_of,
  as_boolean, array_of, as_items,
}
use audio_playback_connector.Settings.Codec.Decode.{
  decode_window, decode_bounds, decode_device, decode_devices, decode_ids, decode_prompt,
  decode_rating, decode_mode, no_prompt, mode_name, decode_json, date_ok, is_current,
}
use audio_playback_connector.Settings.Codec.Encode.{
  encode_window, encode_prompt, encode_device, encode_devices, encode_ids, set_window, set_prompt,
  encode_basics, document, initializer, is_no_prompt,
}

abbrev pub window_fits : PersistedWindowBounds → Bool
window_fits b = fits_int32 b.x && fits_int32 b.y && fits_int32 b.width && fits_int32 b.height

abbrev pub bounds_fit : Option PersistedWindowBounds → Bool
bounds_fit none = true
bounds_fit (some b) = window_fits b

decode_window-encode_window :
    (b : PersistedWindowBounds)
    → window_fits b ≡ true
    → window_ok (some b) ≡ true
    → decode_window (encode_window b) ≡ some b
unfolding ◌>>=◌ ◌>>◌ decode_window encode_window initializer set before erase find object_of
    known_keys integer_of as_integer WString-discrete
decode_window-encode_window b f h = ground arith

-- `winrt::to_string` and `winrt::to_hstring` convert well-formed UTF-16 to UTF-8 and back, and
-- UTF-8 writes ASCII text as it is.
pub record Converts (l : JsonLibrary) : Type 0 where
  pub there_and_back : (w : WString) → is_valid_utf16 w ≡ true → l.to_hstring (l.to_string w) ≡ w
  pub keeps_ascii : (w : WString) → is_ascii w ≡ true → l.to_hstring w ≡ w

decode_device-encode_device :
    (l : JsonLibrary) (d : DeviceSettings)
    → l.to_hstring (l.to_string d.id) ≡ d.id
    → l.to_hstring (l.to_string d.name) ≡ d.name
    → l.to_hstring (l.to_string d.alias) ≡ d.alias
    → decode_device l (encode_device l d) ≡ some d
unfolding ◌>>=◌ ◌>>◌ decode_device encode_device initializer set before erase find object_of
    known_keys text_of as_text switch_of as_boolean WString-discrete
decode_device-encode_device l d hi hn ha = rw (hi, hn, ha)

decode_prompt-encode_prompt :
    (l : JsonLibrary) (p : RatingPromptData)
    → l.to_hstring (l.to_string p.first_launch_date) ≡ p.first_launch_date
    → l.to_hstring (l.to_string p.last_usage_date) ≡ p.last_usage_date
    → date_ok p.first_launch_date ≡ true
    → date_ok p.last_usage_date ≡ true
    → leb p.usage_days int_max ≡ true
    → decode_prompt l (encode_prompt l p) ≡ some p
unfolding ◌>>=◌ ◌>>◌ decode_prompt encode_prompt initializer set before erase find object_of
    known_keys integer_of as_integer text_of as_text switch_of as_boolean WString-discrete
decode_prompt-encode_prompt l p tf tl df dl u = rw (tf, tl, df, dl, u)

module _ (l : JsonLibrary) (c : Converts l) where
  bounded_back :
      (w : WString) (n : ℕ) → is_bounded_utf16 w n ≡ true → l.to_hstring (l.to_string w) ≡ w
  unfolding is_bounded_utf16
  bounded_back w n h = c.there_and_back w (ground arith)

  decode_devices-encode_devices :
      (seen : List WString) (ds : List DeviceSettings)
      → devices_ok seen ds ≡ true
      → decode_devices l (encode_devices l ds) ≡ some ds
  unfolding ◌>>=◌ ◌>>◌ decode_devices encode_devices devices_ok
  decode_devices-encode_devices seen [] h = refl
  decode_devices-encode_devices seen (d ∷ ds) h =
      let row : decode_device l (encode_device l d) ≡ some d =
        decode_device-encode_device l d (bounded_back _ max_device_id_characters (ground arith))
          (bounded_back _ max_device_name_characters (ground arith))
          (bounded_back _ max_device_alias_characters (ground arith)) in
      rw (row, decode_devices-encode_devices (d.id ∷ seen) ds (ground arith))

  decode_ids-encode_ids :
      (seen : List WString) (is : List WString)
      → ids_ok seen is ≡ true
      → decode_ids l (encode_ids l is) ≡ some is
  unfolding ◌>>=◌ ◌>>◌ decode_ids encode_ids ids_ok as_text
  decode_ids-encode_ids seen [] h = refl
  decode_ids-encode_ids seen (i ∷ is) h = rw (
    bounded_back i max_device_id_characters (ground arith),
    decode_ids-encode_ids (i ∷ seen) is (ground arith),
  )

-- What the file can hold: what may be written, with 32-bit window bounds and a rating prompt whose
-- dates are dates.
pub record IsStorable (d : SettingsData) : Type 0 where
  pub persistable : is_persistable d ≡ true
  pub bounds : bounds_fit d.settings_window_bounds ≡ true
  pub first : date_ok d.rating_prompt.first_launch_date ≡ true
  pub last : date_ok d.rating_prompt.last_usage_date ≡ true
  pub days : leb d.rating_prompt.usage_days int_max ≡ true

prompt_back :
    (l : JsonLibrary) (c : Converts l) (p : RatingPromptData)
    → date_ok p.first_launch_date ≡ true
    → date_ok p.last_usage_date ≡ true
    → leb p.usage_days int_max ≡ true
    → decode_prompt l (encode_prompt l p) ≡ some p
prompt_back l c p f e u =
    decode_prompt-encode_prompt l p
      (c.there_and_back _ (is_ascii-is_valid_utf16 _ (date_ok-is_ascii _ f)))
      (c.there_and_back _ (is_ascii-is_valid_utf16 _ (date_ok-is_ascii _ e))) f e u

no_prompt_lem : (p : RatingPromptData) → is_no_prompt p ≡ true → no_prompt ≡ p
unfolding is_no_prompt
no_prompt_lem p h = ground arith

size-encode_devices :
    (l : JsonLibrary) (ds : List DeviceSettings) → size (encode_devices l ds) ≡ length ds
unfolding size encode_devices
size-encode_devices l [] = refl
size-encode_devices l (d ∷ ds) = rw (size-encode_devices l ds)

size-encode_ids : (l : JsonLibrary) (is : List WString) → size (encode_ids l is) ≡ length is
unfolding size encode_ids
size-encode_ids l [] = refl
size-encode_ids l (i ∷ is) = rw (size-encode_ids l is)

is_supported_language-is_valid_utf16 :
    (w : WString) → is_supported_language w ≡ true → is_valid_utf16 w ≡ true
unfolding is_supported_language is_valid_utf16 WString-discrete
is_supported_language-is_valid_utf16 w h = ground arith

decode_mode-mode_name : (m : DefaultDeviceMode) → decode_mode (mode_name m) ≡ some m
unfolding ◌>>=◌ ◌>>◌ decode_mode WString-discrete
decode_mode-mode_name last_connected = refl
decode_mode-mode_name specific_device = refl

-- What may be written has parts that may be written.
is_persistable-parts :
    (d : SettingsData)
    → is_persistable d ≡ true
    → (leb (length d.devices) max_persisted_device_count ≡ true)
      × (leb (length d.last_connected_ids) max_persisted_device_count ≡ true)
      × (is_supported_language d.language ≡ true)
      × (is_bounded_utf16 d.default_device_id max_device_id_characters ≡ true)
      × (window_ok d.settings_window_bounds ≡ true)
      × (devices_ok [] d.devices ≡ true)
      × (ids_ok [] d.last_connected_ids ≡ true)
unfolding is_persistable
is_persistable-parts d h = (
  ground arith,
  ground arith,
  ground arith,
  ground arith,
  ground arith,
  ground arith,
  ground arith,
)

-- The mode is no free text.
mode_name-is_ascii : (m : DefaultDeviceMode) → is_ascii (mode_name m) ≡ true
unfolding is_ascii
mode_name-is_ascii last_connected = refl
mode_name-is_ascii specific_device = refl

-- Every part of the document is read back, whichever optional parts it has.
pub decode_json-document :
    (l : JsonLibrary) (c : Converts l) (d : SettingsData)
    → IsStorable d
    → decode_json l (document l d) ≡ some d
unfolding ◌>>=◌ ◌>>◌ decode_json document encode_basics set_window set_prompt initializer set before
    erase find object_of known_keys integer_of as_integer is_current text_of as_text switch_of
    as_boolean array_of as_items decode_bounds decode_rating WString-discrete
decode_json-document l c d s =
    let (nd, ni, la, bi, wo, de, ids) = is_persistable-parts d s.persistable in
    let tl : l.to_hstring (l.to_string d.language) ≡ d.language =
      c.there_and_back _ (is_supported_language-is_valid_utf16 _ la) in
    let tm : l.to_hstring (mode_name d.default_device) ≡ mode_name d.default_device =
      c.keeps_ascii _ (mode_name-is_ascii d.default_device) in
    let ti : l.to_hstring (l.to_string d.default_device_id) ≡ d.default_device_id =
      bounded_back l c _ max_device_id_characters bi in
    let m = decode_mode-mode_name d.default_device in
    let sd : leb (size (encode_devices l d.devices)) max_persisted_device_count ≡ true =
      rw (size-encode_devices l d.devices) nd in
    let si : leb (size (encode_ids l d.last_connected_ids)) max_persisted_device_count ≡ true =
      rw (size-encode_ids l d.last_connected_ids) ni in
    let ds = decode_devices-encode_devices l c [] d.devices de in
    let is = decode_ids-encode_ids l c [] d.last_connected_ids ids in
    let pr = prompt_back l c d.rating_prompt s.first s.last s.days in
    elim (Option-cases d.settings_window_bounds) [
      | inl e ↦
          let per : is_persistable (record d { settings_window_bounds = none }) ≡ true =
            subst (λ o. is_persistable (record d { settings_window_bounds = o }) ≡ true) e
              s.persistable in
          elim (Bool-cases (is_no_prompt d.rating_prompt)) [
            | inl p ↦ rw (e, p, tl, tm, ti, m, sd, si, ds, is, no_prompt_lem _ p, per) refl
            | inr p ↦ rw (e, p, tl, tm, ti, m, sd, si, ds, is, pr, per) refl
          ]
      | inr (b, e) ↦
          let per : is_persistable (record d { settings_window_bounds = some b }) ≡ true =
            subst (λ o. is_persistable (record d { settings_window_bounds = o }) ≡ true) e
              s.persistable in
          let w : decode_window (encode_window b) ≡ some b =
            decode_window-encode_window b (subst (λ o. bounds_fit o ≡ true) e s.bounds)
              (subst (λ o. window_ok o ≡ true) e wo) in
          elim (Bool-cases (is_no_prompt d.rating_prompt)) [
            | inl p ↦ rw (e, p, tl, tm, ti, m, w, sd, si, ds, is, no_prompt_lem _ p, per) refl
            | inr p ↦ rw (e, p, tl, tm, ti, m, w, sd, si, ds, is, pr, per) refl
          ]
    ]
