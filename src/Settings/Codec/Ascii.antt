-- ===== src/Settings/Codec/Ascii.antt =====
-- ASCII text, which UTF-8 and UTF-16 write alike: the dates and the names of the settings file of
-- AudioPlaybackConnector2/src/core/SettingsCodec.cpp are such text.
use audio_playback_connector.Prelude.{
  ℕ, suc, ◌+◌, ◌<◌, Bool, true, ◌&&◌, ◌≡◌, [], ◌∷◌, ltb, arith, refl, subst, sym,
}
use audio_playback_connector.Text.Utf16.{WString, is_valid_utf16, unit_at}
use audio_playback_connector.Settings.Codec.Decode.{digits_ok, date_ok, is_date}

unfoldable pub is_ascii : WString → Bool
is_ascii [] = true
is_ascii (c ∷ w) = ltb c 0x80 && is_ascii w

pub is_ascii-is_valid_utf16 : (w : WString) → is_ascii w ≡ true → is_valid_utf16 w ≡ true
unfolding is_ascii is_valid_utf16
is_ascii-is_valid_utf16 [] h = refl
is_ascii-is_valid_utf16 (c ∷ []) h = ground arith
is_ascii-is_valid_utf16 (c ∷ d ∷ w) h = ground (arith, is_ascii-is_valid_utf16 (d ∷ w))

-- The hyphens are no digits.
digits_ok-is_ascii :
    (i : ℕ) (w : WString)
    → digits_ok i w ≡ true
    → ((k : ℕ) → i + k ≡ 4 → unit_at w k < 0x80)
    → ((k : ℕ) → i + k ≡ 7 → unit_at w k < 0x80)
    → is_ascii w ≡ true
unfolding digits_ok is_ascii unit_at
digits_ok-is_ascii i [] h a b = refl
digits_ok-is_ascii i (c ∷ w) h a b =
    let rest : is_ascii w ≡ true =
      digits_ok-is_ascii (suc i) w (ground arith) (λ k e. a (suc k) (omega arith))
        (λ k e. b (suc k) (omega arith)) in
    let fourth : ((i ≡ 4) → c < 0x80) = λ e. a 0 (omega arith) in
    let seventh : ((i ≡ 7) → c < 0x80) = λ e. b 0 (omega arith) in ground arith

pub date_ok-is_ascii : (date : WString) → date_ok date ≡ true → is_ascii date ≡ true
unfolding date_ok is_date is_ascii
date_ok-is_ascii [] h = refl
date_ok-is_ascii (c ∷ w) h =
    let at : (k : ℕ) → unit_at (c ∷ w) k ≡ 0x2D → (i : ℕ) → i ≡ k → unit_at (c ∷ w) i < 0x80 =
      λ k u i e. subst (λ i. unit_at (c ∷ w) i < 0x80) (sym e) (omega (arith, u)) in
    digits_ok-is_ascii 0 (c ∷ w) (ground arith) (λ k e. at 4 (ground arith) k (omega arith))
      (λ k e. at 7 (ground arith) k (omega arith))
