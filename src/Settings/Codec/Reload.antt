-- ===== src/Settings/Codec/Reload.antt =====
-- What Decode and DecodePersisted of AudioPlaybackConnector2/src/core/SettingsCodec.cpp let through.
use audio_playback_connector.Prelude.{
  true, false, ◌≡◌, Option, none, some, leb, length, ◌>>=◌, refl, Option-cases, inl, inr, Gives,
  gives, throws, Gives-then, Gives-bind, Gives-require, Gives-some, Gives-if,
}
use audio_playback_connector.Prelude.Int.{ℤ, pos, negsuc}
use audio_playback_connector.Text.{is_empty}
use audio_playback_connector.Settings.Data.{RatingPromptData, int_max}
use audio_playback_connector.Settings.Codec.Json.{
  JsonLibrary, Bytes, Json, null, boolean, number, decimal, text, array, object, find, Fields,
  parse_json, max_settings_file_bytes,
}
use audio_playback_connector.Settings.Codec.Read.{integer_of, as_integer, fits_int32}
use audio_playback_connector.Settings.Codec.Decode.{
  decode, decode_json, decode_window, decode_bounds, decode_prompt, decode_rating, date_ok, natural,
}
use audio_playback_connector.Settings.Codec.Encode.{document, encode}
use audio_playback_connector.Settings.Codec.Legacy.{decode_persisted, DecodedSettings}
use audio_playback_connector.Settings.Codec.Documents.{
  IsStorable, Converts, bounds_fit, window_fits,
}
use audio_playback_connector.Settings.Codec.RoundTrip.{decode-encode}

as_integer-fits : (j : Json) → Gives (λ z. fits_int32 z ≡ true) (as_integer j)
unfolding as_integer
as_integer-fits (number z) = Gives-require (fits_int32 z) (λ h. gives h)
as_integer-fits null = throws
as_integer-fits (boolean b) = throws
as_integer-fits (decimal w) = throws
as_integer-fits (text w) = throws
as_integer-fits (array is) = throws
as_integer-fits (object fs) = throws

integer_of-fits :
    (fs : Fields) (key : Bytes) (z : ℤ)
    → fits_int32 z ≡ true
    → Gives (λ z. fits_int32 z ≡ true) (integer_of fs key z)
unfolding integer_of
integer_of-fits fs key z h = elim (Option-cases (find key fs)) [
  | inl e ↦ rw (e, integer_of) (gives h)
  | inr (found, e) ↦ rw (e, integer_of) (as_integer-fits found)
]

decode_window-fits : (j : Json) → Gives (λ b. window_fits b ≡ true) (decode_window j)
unfolding decode_window
decode_window-fits j = Gives-then _ λ bounds. Gives-then _ λ dpi'. Gives-then _ λ dpi.
    Gives-bind (integer_of-fits bounds _ _ refl) λ x hx.
      Gives-bind (integer_of-fits bounds _ _ refl) λ y hy.
        Gives-bind (integer_of-fits bounds _ _ refl) λ w hw.
          Gives-bind (integer_of-fits bounds _ _ refl) λ h hh.
            gives {a = record { x = x; y = y; width = w; height = h; dpi = dpi }}
              (rw (hx, hy, hw, hh) refl)

decode_bounds-fits : (o : Option Json) → Gives (λ b. bounds_fit b ≡ true) (decode_bounds o)
unfolding decode_bounds
decode_bounds-fits none = gives refl
decode_bounds-fits (some j) = Gives-bind (decode_window-fits j) λ b h. gives h

record IsPrompt (p : RatingPromptData) : Type 0 where
  first : date_ok p.first_launch_date ≡ true
  last : date_ok p.last_usage_date ≡ true
  days : leb p.usage_days int_max ≡ true

natural-fits : (z : ℤ) → fits_int32 z ≡ true → Gives (λ n. leb n int_max ≡ true) (natural z)
natural-fits (pos n) h = gives h
natural-fits (negsuc n) h = throws

decode_prompt-IsPrompt : (l : JsonLibrary) (j : Json) → Gives IsPrompt (decode_prompt l j)
unfolding decode_prompt
decode_prompt-IsPrompt l j = Gives-then _ λ rating. Gives-then _ λ first. Gives-then _ λ last.
    Gives-bind (integer_of-fits rating _ _ refl) λ z hz. Gives-bind (natural-fits z hz) λ days hd.
      Gives-then _ λ asked.
        Gives-require _ λ f. Gives-require _ λ e. gives (record { first = f; last = e; days = hd })

decode_rating-IsPrompt : (l : JsonLibrary) (o : Option Json) → Gives IsPrompt (decode_rating l o)
unfolding decode_rating date_ok
decode_rating-IsPrompt l none = gives (record { first = refl; last = refl; days = refl })
decode_rating-IsPrompt l (some j) = decode_prompt-IsPrompt l j

decode_json-IsStorable : (l : JsonLibrary) (j : Json) → Gives IsStorable (decode_json l j)
unfolding decode_json
decode_json-IsStorable l j = Gives-then _ λ fs. Gives-then _ λ version. Gives-require _ λ current.
    Gives-then _ λ b1. Gives-then _ λ b2. Gives-then _ λ b3. Gives-then _ λ b4. Gives-then _ λ b5.
      Gives-then _ λ b6. Gives-then _ λ b7. Gives-then _ λ language. Gives-then _ λ name.
        Gives-then _ λ mode. Gives-then _ λ id. Gives-bind (decode_bounds-fits _) λ bounds hb.
          Gives-then _ λ rows. Gives-then _ λ devices. Gives-then _ λ items. Gives-then _ λ ids.
            Gives-bind (decode_rating-IsPrompt l _) λ rating hr. Gives-require _ λ p.
              gives (record {
                persistable = p;
                bounds = hb;
                first = hr.first;
                last = hr.last;
                days = hr.days;
              })

decode-IsStorable : (l : JsonLibrary) (bytes : Bytes) → Gives IsStorable (decode l bytes)
unfolding decode
decode-IsStorable l bytes = Gives-then (parse_json l bytes) (λ j. decode_json-IsStorable l j)

-- Whatever file is loaded, of the current format or of the legacy one, the settings can be stored.
pub decode_persisted-IsStorable :
    (l : JsonLibrary) (bytes : Bytes) {r : DecodedSettings}
    → decode_persisted l bytes ≡ some r
    → IsStorable r.settings
unfolding decode_persisted
decode_persisted-IsStorable l bytes h = Gives-some (loaded l bytes) h
  where
    loaded :
        (l : JsonLibrary) (bytes : Bytes)
        → Gives (λ r. IsStorable r.settings) (decode_persisted l bytes)
    loaded l bytes = Gives-then _ λ json. Gives-then _ λ current.
        Gives-if current (Gives-bind (decode-IsStorable l bytes) λ d s. gives s)
          (Gives-then _ λ fs. Gives-bind (decode-IsStorable l _) λ d s. gives s)

-- The settings that a file gives, of the current format or of the legacy one, are the ones
-- that are loaded after they are saved again, provided that the JSON library reads the document it prints, which
-- is not empty and fits the file limit, and that its conversions of text are inverse on
-- well-formed text.
pub reload :
    (l : JsonLibrary) (c : Converts l) (bytes : Bytes) (r : DecodedSettings)
    → decode_persisted l bytes ≡ some r
    → l.parse (l.dump (document l r.settings)) ≡ some (document l r.settings)
    → is_empty (l.dump (document l r.settings)) ≡ false
    → leb (length (l.dump (document l r.settings))) max_settings_file_bytes ≡ true
    → (encode l r.settings >>= decode l) ≡ some r.settings
reload l c bytes r h reread written fits =
    decode-encode l c r.settings (decode_persisted-IsStorable l bytes h) reread written fits
