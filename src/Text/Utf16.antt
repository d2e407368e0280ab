-- ===== src/Text/Utf16.antt =====
-- IsValidUtf16, IsBoundedUtf16 and TruncateUtf16 of
-- AudioPlaybackConnector2/include/core/SettingsLimits.hpp. A `std::wstring` is the list of its code
-- units; `wchar_t` has 16 bits on the only platform, so the casts to `uint16_t` change nothing.
pub mod WellFormed
pub mod Truncate
use audio_playback_connector.Prelude.{
  ℕ, zero, suc, ◌-◌, ◌≡◌, Bool, true, false, not, ◌&&◌, ◌||◌, List, [], ◌∷◌, leb, ltb, ◌==◌,
  if◌then◌else◌, length, take, ℕ_discrete, refl,
}
use Prim.Native.Nat.{min}

abbrev pub WString : Type 0
WString = List ℕ

unfoldable pub WString-discrete : Discrete WString
unfolding ℕ_discrete
WString-discrete = hlevel ℕ_discrete

abbrev pub is_high_surrogate : ℕ → Bool
is_high_surrogate c = leb 0xD800 c && leb c 0xDBFF

abbrev pub is_low_surrogate : ℕ → Bool
is_low_surrogate c = leb 0xDC00 c && leb c 0xDFFF

-- The loop over the index: a high surrogate must be followed by a low one and the pair is skipped.
unfoldable pub is_valid_utf16 : WString → Bool
is_valid_utf16 [] = true
is_valid_utf16 (c ∷ []) =
    if is_high_surrogate c then false else if is_low_surrogate c then false else true
is_valid_utf16 (c ∷ low ∷ rest) =
    let skip = is_valid_utf16 rest in
    let next = is_valid_utf16 (low ∷ rest) in
    if is_high_surrogate c
    then (if ltb low 0xDC00 || ltb 0xDFFF low then false else skip)
    else if is_low_surrogate c
    then false
    else next

unfoldable pub contains_unit : ℕ → WString → Bool
contains_unit a [] = false
contains_unit a (c ∷ w) = c == a || contains_unit a w

unfoldable pub is_bounded_utf16 : WString → ℕ → Bool
is_bounded_utf16 w limit = leb (length w) limit && not (contains_unit 0 w) && is_valid_utf16 w

-- `value[i]`, in range where the code reads it.
unfoldable pub unit_at : WString → ℕ → ℕ
unit_at [] i = 0
unit_at (c ∷ w) zero = c
unit_at (c ∷ w) (suc i) = unit_at w i

-- One unit less where a cut behind `n` units would split a surrogate pair.
unfoldable pub cut_at : WString → ℕ → ℕ
cut_at w n =
    if not (n == length w) && not (n == 0) && is_high_surrogate (unit_at w (n - 1))
    then n - 1
    else n

unfoldable pub truncate_utf16 : WString → ℕ → WString
truncate_utf16 w limit =
    if contains_unit 0 w || not (is_valid_utf16 w)
    then []
    else take (cut_at w (min (length w) limit)) w

test_pair : is_valid_utf16 (0x41 ∷ 0xD83D ∷ 0xDE00 ∷ []) ≡ true
unfolding is_valid_utf16
test_pair = refl
