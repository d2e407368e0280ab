-- ===== src/Control/Targets.antt =====
-- `FindAutoTargetMatches` (AudioPlaybackConnector2/include/control/ControlTargetMatcher.hpp) with the text
-- helpers of AudioPlaybackConnector2/include/util/Text.hpp. `std::towlower` depends on the C locale, so
-- it is the parameter `lower`, on code units.
pub mod Meaning
pub mod Ranks
use audio_playback_connector.Text.{same, is_empty}
use audio_playback_connector.Text.Utf16.{WString}
use audio_playback_connector.Prelude.{
  ℕ, zero, suc, ◌+◌, ◌-◌, ◌*◌, ◌/◌, ◌%◌, ◌^◌, ◌≤◌, ◌<◌, ◌≡◌, refl, sym, ap, subst, ◌∙◌, ◌≢◌, ◌↔◌,
  ◌⊎◌, inl, inr, Bool, true, false, not, ◌&&◌, ◌||◌, Option, none, some, List, [], ◌∷◌, ◌++◌, arith,
  ltb, leb, ◌==◌, if◌then◌else◌, differs, holds, is_some, Bool-cases, Option-cases, length, take,
  u64_max, length-append, All,
}
use Prim.Native.Nat.{min, max}

pub record TargetCandidateView : Type 0 where
  pub id : WString
  pub name : WString
  pub alias : WString

pub data AutoTargetMatchRank : Type 0 where
  no_match exact_id exact_alias_or_name mac_fragment alias_or_name_substring : AutoTargetMatchRank

pub record AutoTargetMatches : Type 0 where
  pub rank : AutoTargetMatchRank
  pub indices : List ℕ

unfoldable pub lower_invariant : (ℕ → ℕ) → WString → WString
lower_invariant lower [] = []
lower_invariant lower (c ∷ w) = lower c ∷ lower_invariant lower w

unfoldable pub equals_ignore_case : (ℕ → ℕ) → WString → WString → Bool
equals_ignore_case lower v w =
    (length v == length w) && same (lower_invariant lower v) (lower_invariant lower w)

-- `find(needle) != npos`.
abbrev pub starts_with : WString → WString → Bool
starts_with [] hay = true
starts_with (c ∷ needle) [] = false
starts_with (c ∷ needle) (d ∷ hay) = (c == d) && starts_with needle hay

unfoldable pub occurs : WString → WString → Bool
occurs needle [] = is_empty needle
occurs needle (c ∷ hay) = starts_with needle (c ∷ hay) || occurs needle hay

unfoldable pub contains_ignore_case : (ℕ → ℕ) → WString → WString → Bool
contains_ignore_case lower value query =
    not (is_empty query) && occurs (lower_invariant lower query) (lower_invariant lower value)

-- '0' to '9', 'a' to 'f', 'A' to 'F'.
abbrev pub is_hex : ℕ → Bool
is_hex c = (leb 48 c && leb c 57) || (leb 97 c && leb c 102) || (leb 65 c && leb c 70)

unfoldable pub normalize_hex : (ℕ → ℕ) → WString → WString
normalize_hex lower [] = []
normalize_hex lower (c ∷ w) =
    if is_hex c then lower c ∷ normalize_hex lower w else normalize_hex lower w

-- The loop of `collect`, from an index on.
abbrev pub collect : (TargetCandidateView → Bool) → ℕ → List TargetCandidateView → List ℕ
collect predicate index [] = []
collect predicate index (c ∷ cs) =
    if predicate c
    then index ∷ collect predicate (index + 1) cs
    else collect predicate (index + 1) cs

-- The predicate of each rank.
unfoldable pub matches_at : (ℕ → ℕ) → WString → AutoTargetMatchRank → TargetCandidateView → Bool
matches_at lower query no_match c = false
matches_at lower query exact_id c = equals_ignore_case lower c.id query
matches_at lower query exact_alias_or_name c =
    equals_ignore_case lower c.alias query || equals_ignore_case lower c.name query
matches_at lower query mac_fragment c =
    occurs (normalize_hex lower query) (normalize_hex lower c.id)
matches_at lower query alias_or_name_substring c =
    contains_ignore_case lower c.alias query || contains_ignore_case lower c.name query

abbrev pub result : AutoTargetMatchRank → List ℕ → AutoTargetMatches
result r is = record { rank = r; indices = is }

unfoldable pub find_auto_target_matches :
    (ℕ → ℕ) → List TargetCandidateView → WString → AutoTargetMatches
find_auto_target_matches lower cs query =
    let at = λ (r : AutoTargetMatchRank). collect (matches_at lower query r) 0 cs in
    if is_empty query
    then result no_match []
    else if not (is_empty (at exact_id))
    then result exact_id (at exact_id)
    else if not (is_empty (at exact_alias_or_name))
    then result exact_alias_or_name (at exact_alias_or_name)
    else if leb 6 (length (normalize_hex lower query)) && not (is_empty (at mac_fragment))
    then result mac_fragment (at mac_fragment)
    else if not (is_empty (at alias_or_name_substring))
    then result alias_or_name_substring (at alias_or_name_substring)
    else result no_match []
