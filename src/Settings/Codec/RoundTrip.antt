-- ===== src/Settings/Codec/RoundTrip.antt =====
-- Saving and loading the settings file: Encode and Decode of
-- AudioPlaybackConnector2/src/core/SettingsCodec.cpp.
use audio_playback_connector.Prelude.{
  true, false, ◌≡◌, some, List, [], ◌∷◌, leb, length, ◌>>=◌, ◌>>◌, refl, Bool-cases, Option-cases,
  inl, inr,
}
use audio_playback_connector.Text.{is_empty}
use audio_playback_connector.Text.Utf16.{WString, WString-discrete}
use audio_playback_connector.Settings.Data.{DeviceSettings, SettingsData}
use audio_playback_connector.Settings.Codec.Json.{
  erase, sorted_items, sorted, are_checked, JsonLibrary, set, before, is_checked, parse_json,
  max_settings_file_bytes,
}
use audio_playback_connector.Settings.Codec.Decode.{decode}
use audio_playback_connector.Settings.Codec.Encode.{
  encode_window, encode_prompt, encode_device, encode_devices, encode_ids, set_window, set_prompt,
  encode_basics, document, encode, initializer, is_no_prompt,
}
use audio_playback_connector.Settings.Codec.Documents.{IsStorable, Converts, decode_json-document}

encode_devices-are_checked :
    (l : JsonLibrary) (ds : List DeviceSettings) → are_checked 2 (encode_devices l ds) ≡ true
unfolding is_checked encode_devices encode_device initializer set before erase WString-discrete
encode_devices-are_checked l [] = refl
encode_devices-are_checked l (d ∷ ds) = rw (encode_devices-are_checked l ds)

encode_ids-are_checked :
    (l : JsonLibrary) (is : List WString) → are_checked 2 (encode_ids l is) ≡ true
unfolding is_checked encode_ids
encode_ids-are_checked l [] = refl
encode_ids-are_checked l (i ∷ is) = rw (encode_ids-are_checked l is)

-- The parser's callback lets every document of the encoder through.
document-is_checked : (l : JsonLibrary) (d : SettingsData) → is_checked 0 (document l d) ≡ true
unfolding is_checked document encode_basics set_window set_prompt encode_window encode_prompt
    initializer set before erase WString-discrete
document-is_checked l d =
    let ds = encode_devices-are_checked l d.devices in
    let is = encode_ids-are_checked l d.last_connected_ids in
    elim (Option-cases d.settings_window_bounds) [
      | inl e ↦ elim (Bool-cases (is_no_prompt d.rating_prompt)) [
        | inl p ↦ rw (e, p, ds, is) refl
        | inr p ↦ rw (e, p, ds, is) refl
      ]
      | inr (b, e) ↦ elim (Bool-cases (is_no_prompt d.rating_prompt)) [
        | inl p ↦ rw (e, p, ds, is) refl
        | inr p ↦ rw (e, p, ds, is) refl
      ]
    ]

sorted_items-encode_devices :
    (l : JsonLibrary) (ds : List DeviceSettings)
    → sorted_items (encode_devices l ds) ≡ encode_devices l ds
unfolding sorted encode_devices encode_device initializer set before erase WString-discrete
sorted_items-encode_devices l [] = refl
sorted_items-encode_devices l (d ∷ ds) = rw (sorted_items-encode_devices l ds) refl

sorted_items-encode_ids :
    (l : JsonLibrary) (is : List WString) → sorted_items (encode_ids l is) ≡ encode_ids l is
unfolding sorted encode_ids
sorted_items-encode_ids l [] = refl
sorted_items-encode_ids l (i ∷ is) = rw (sorted_items-encode_ids l is) refl

-- The encoder's objects are in order.
sorted-document : (l : JsonLibrary) (d : SettingsData) → sorted (document l d) ≡ document l d
unfolding sorted document encode_basics set_window set_prompt encode_window encode_prompt
    initializer set before erase WString-discrete
sorted-document l d =
    let ds = sorted_items-encode_devices l d.devices in
    let is = sorted_items-encode_ids l d.last_connected_ids in
    elim (Option-cases d.settings_window_bounds) [
      | inl e ↦ elim (Bool-cases (is_no_prompt d.rating_prompt)) [
        | inl p ↦ rw (e, p, ds, is) refl
        | inr p ↦ rw (e, p, ds, is) refl
      ]
      | inr (b, e) ↦ elim (Bool-cases (is_no_prompt d.rating_prompt)) [
        | inl p ↦ rw (e, p, ds, is) refl
        | inr p ↦ rw (e, p, ds, is) refl
      ]
    ]

-- Settings that may be written, with 32-bit window bounds, a day count of 32 bits and dates that are
-- dates or empty, are the settings that are loaded from what is saved of them, provided that the JSON
-- library reads the document it prints, which is not empty and fits the file limit, and that its
-- conversions of text are inverse on well-formed text.
pub decode-encode :
    (l : JsonLibrary) (c : Converts l) (d : SettingsData)
    → IsStorable d
    → l.parse (l.dump (document l d)) ≡ some (document l d)
    → is_empty (l.dump (document l d)) ≡ false
    → leb (length (l.dump (document l d))) max_settings_file_bytes ≡ true
    → (encode l d >>= decode l) ≡ some d
unfolding ◌>>=◌ ◌>>◌ encode decode parse_json
decode-encode l c d s reread written fits =
    rw
      (
        s.persistable,
        fits,
        written,
        fits,
        reread,
        document-is_checked l d,
        sorted-document l d,
        decode_json-document l c d s,
      )
      refl
