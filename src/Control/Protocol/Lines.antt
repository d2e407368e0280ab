-- ===== src/Control/Protocol/Lines.antt =====
-- The payload of two lines that an alias is set by (IsRequestValid of
-- AudioPlaybackConnector2/include/control/CommandProtocol.hpp).
use audio_playback_connector.Prelude.{
  ℕ, suc, zero, length-append, ◌<◌, ◌≡◌, ◌≢◌, inl, inr, refl, ap, true, false, some, [], ◌∷◌, ◌++◌,
  ◌==◌, length, arith, Bool-cases, Option-cases,
}
use audio_playback_connector.Text.Utf16.{WString, contains_unit}
use audio_playback_connector.Control.Protocol.{find_newline, drop, is_one_line, is_alias_payload}

-- The two lines of a payload, split at the first newline.
find_newline-splits :
    (w : WString) (n : ℕ)
    → find_newline w ≡ some n
    → (v : WString) × (w ≡ v ++ 0x0A ∷ drop (suc n) w)
      × (length v ≡ n)
      × (contains_unit 0x0A v ≡ false)
unfolding find_newline drop contains_unit
find_newline-splits [] n h = absurd (cc)
find_newline-splits (c ∷ w) n h = elim (Bool-cases (c == 0x0A)) [
  | inl e ↦ ([], ground arith, ground arith, refl)
  | inr e ↦ elim (Option-cases (find_newline w)) [
    | inl f ↦ absurd (ground arith)
    | inr (m, f) ↦
        let (v, p, q, r) = find_newline-splits w m f in
        let k : n ≡ suc m = ground arith in
        (c ∷ v, rw (k) (ap (λ x. c ∷ x) p), omega (arith, q, k), rw (e) r)
  ]
]

find_newline-append :
    (v u : WString) → contains_unit 0x0A v ≡ false → find_newline (v ++ 0x0A ∷ u) ≡ some (length v)
unfolding find_newline contains_unit
find_newline-append [] u h = refl
find_newline-append (c ∷ v) u h = ground (arith, find_newline-append v u)

drop-append : (v u : WString) → drop (suc (length v)) (v ++ 0x0A ∷ u) ≡ u
unfolding drop
drop-append [] u = refl
drop-append (c ∷ v) u = drop-append v u

-- A payload of two lines.
pub record TwoLines (w : WString) : Type 0 where
  pub device : WString
  pub alias : WString
  pub split : w ≡ device ++ 0x0A ∷ alias
  pub device_given : device ≢ []
  pub device_line : contains_unit 0x0A device ≡ false
  pub alias_given : alias ≢ []
  pub alias_line : is_one_line alias ≡ true

pub length-drop : (n : ℕ) (w : WString) → n < length w → drop n w ≢ []
unfolding drop
length-drop zero [] h = absurd (omega arith)
length-drop zero (c ∷ w) h = cc
length-drop (suc n) [] h = absurd (omega arith)
length-drop (suc n) (c ∷ w) h = length-drop n w (omega (arith, h))

pub is_alias_payload-TwoLines : (w : WString) → is_alias_payload w ≡ true → TwoLines w
unfolding is_alias_payload
is_alias_payload-TwoLines w h = elim (Option-cases (find_newline w)) [
  | inl e ↦ absurd (ground arith)
  | inr (n, e) ↦
      let (v, p, q, r) = find_newline-splits w n e in
      record {
        device = v;
        alias = drop (suc n) w;
        split = p;
        device_given = λ z. ground arith;
        device_line = r;
        alias_given = length-drop (suc n) w (ground arith);
        alias_line = ground arith;
      }
]

pub given : (w : WString) → w ≢ [] → 0 < length w
given [] h = absurd (h refl)
given (c ∷ w) h = omega arith

pub TwoLines-is_alias_payload :
    (v u : WString)
    → v ≢ []
    → contains_unit 0x0A v ≡ false
    → u ≢ []
    → is_one_line u ≡ true
    → is_alias_payload (v ++ 0x0A ∷ u) ≡ true
unfolding is_alias_payload
TwoLines-is_alias_payload v u nv lv nu lu =
    rw (find_newline-append v u lv, is_alias_payload, drop-append v u, lu)
      (ground (arith, length-append v (0x0A ∷ u), given v nv, given u nu))
