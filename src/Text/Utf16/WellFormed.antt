-- ===== src/Text/Utf16/WellFormed.antt =====
-- What well-formed UTF-16 is, and that the scanner decides it.
use audio_playback_connector.Prelude.{
  ℕ, zero, suc, ◌≤◌, ◌<◌, ◌≡◌, refl, ◌↔◌, ◌⊎◌, inl, inr, true, false, [], ◌∷◌, arith, Bool-cases,
}
use audio_playback_connector.Text.Utf16.{WString, is_high_surrogate, is_valid_utf16, unit_at}

-- A text is a sequence of single units outside the surrogates and of surrogate pairs.
pub data WellFormed : WString → Type 0 where
  empty : WellFormed []
  unit : {c : ℕ} {w : WString} → (c < 0xD800) ⊎ (0xDFFF < c) → WellFormed w → WellFormed (c ∷ w)
  pair :
      {h l : ℕ} {w : WString}
      → (0xD800 ≤ h) × (h ≤ 0xDBFF)
      → (0xDC00 ≤ l) × (l ≤ 0xDFFF)
      → WellFormed w
      → WellFormed (h ∷ l ∷ w)

valid_sound : (w : WString) → is_valid_utf16 w ≡ true → WellFormed w
unfolding is_valid_utf16
valid_sound [] v = empty
valid_sound (c ∷ []) v = unit (ground arith) empty
valid_sound (c ∷ l ∷ w) v = elim (Bool-cases (is_high_surrogate c)) [
  | inl high ↦ pair (ground arith) (ground arith) (valid_sound w (ground arith))
  | inr other ↦ unit (ground arith) (valid_sound (l ∷ w) (ground arith))
]

valid_complete : {w : WString} → WellFormed w → is_valid_utf16 w ≡ true
unfolding is_valid_utf16
valid_complete empty = refl
valid_complete (unit {c} {w = []} out h) = ground arith
valid_complete (unit {c} {w = l ∷ w} out h) = ground (arith, valid_complete h)
valid_complete (pair high low h) = ground (arith, valid_complete h)

-- The scanner accepts exactly the well-formed texts: it never rejects a valid pair, and it finds
-- every unpaired surrogate.
pub is_valid_utf16_iff : (w : WString) → (is_valid_utf16 w ≡ true) ↔ WellFormed w
is_valid_utf16_iff w = (valid_sound w, valid_complete)

-- In a well-formed text two neighbours are never both high surrogates.
pub high_not_repeated :
    {w : WString} (k : ℕ)
    → WellFormed w
    → is_high_surrogate (unit_at w (suc k)) ≡ true
    → is_high_surrogate (unit_at w k) ≡ false
unfolding unit_at
high_not_repeated k empty h = ground arith
high_not_repeated zero (unit out r) h = ground arith
high_not_repeated (suc k) (unit out r) h = high_not_repeated k r h
high_not_repeated zero (pair high low r) h = ground arith
high_not_repeated (suc zero) (pair high low r) h = ground arith
high_not_repeated (suc (suc k)) (pair high low r) h = high_not_repeated k r h
