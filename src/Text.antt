-- ===== src/Text.antt =====
-- Wide text: the equality of strings, and text literals as code units. The UTF-16 rules stand in the
-- child `Utf16` (AudioPlaybackConnector2/include/core/SettingsLimits.hpp).
pub mod Utf16
pub mod Table
use Prim.Native.String.{String}
use Prim.Native.Char.{code}
use audio_playback_connector.Prelude.{
  ℕ, ◌≡◌, Bool, true, false, List, [], ◌∷◌, ◌||◌, holds, ◌↔◌, refl, arith,
}
use Utf16.{WString, WString-discrete}

-- `==` of two strings.
abbrev pub same : WString → WString → Bool
same v w = holds (WString-discrete v w)

abbrev pub is_empty {ℓ} : {A : Type ℓ} → List A → Bool
is_empty [] = true
is_empty (x ∷ xs) = false

-- A literal `L"..."`; the literals of the source are ASCII.
abbrev pub wide : String → WString
wide String.[] = []
wide (String.◌∷◌ c s) = code c ∷ wide s

-- Membership in an `std::unordered_set<std::wstring_view>`.
abbrev pub contains : List WString → WString → Bool
contains [] w = false
contains (v ∷ vs) w = same v w || contains vs w

pub same_iff : (v w : WString) → (same v w ≡ true) ↔ (v ≡ w)
same_iff v w = ground arith

same_test : same (wide "en") (wide "de") ≡ false
unfolding WString-discrete
same_test = refl
