-- ===== src/Control/Targets/Ranks.antt =====
-- The best rank wins, and its matches are complete.
use audio_playback_connector.Control.Targets.{
  TargetCandidateView, AutoTargetMatchRank, no_match, exact_id, exact_alias_or_name, mac_fragment,
  alias_or_name_substring, AutoTargetMatches, normalize_hex, collect, matches_at, result,
  find_auto_target_matches,
}
use audio_playback_connector.Control.Targets.Meaning.{NamesAt, matches_at_iff}
use audio_playback_connector.Prelude.{
  ◌↔◌, ◌∙◌, sym, get_elem?, ℕ, zero, suc, ◌+◌, ◌<◌, ◌≡◌, refl, Bool, true, false, not, ◌&&◌, ◌||◌,
  Option, none, some, List, [], ◌∷◌, arith, leb, ◌==◌, if◌then◌else◌, length,
}
use audio_playback_connector.Text.{is_empty}
use audio_playback_connector.Text.Utf16.{WString}

-- A rank that the query can reach: a fragment of an address has at least six digits.
abbrev pub is_tried : (ℕ → ℕ) → WString → AutoTargetMatchRank → Bool
is_tried lower query no_match = false
is_tried lower query mac_fragment = leb 6 (length (normalize_hex lower query))
is_tried lower query _ = true

abbrev pub level : AutoTargetMatchRank → ℕ
level exact_id = 0
level exact_alias_or_name = 1
level mac_fragment = 2
level alias_or_name_substring = 3
level no_match = 4

abbrev pub listed : ℕ → List ℕ → Bool
listed i [] = false
listed i (j ∷ js) = (i == j) || listed i js

-- The candidate at the index, if there is one, satisfies the predicate.
abbrev pub satisfied : (TargetCandidateView → Bool) → Option TargetCandidateView → Bool
satisfied p none = false
satisfied p (some c) = p c

listed_below :
    (p : TargetCandidateView → Bool) (n i : ℕ) (cs : List TargetCandidateView)
    → i < n
    → listed i (collect p n cs) ≡ false
listed_below p n i [] h = refl
listed_below p n i (c ∷ cs) h = ground (arith, listed_below p (n + 1) i cs (omega arith))

listed_from :
    (p : TargetCandidateView → Bool) (n i : ℕ) (cs : List TargetCandidateView)
    → listed (n + i) (collect p n cs) ≡ satisfied p (get_elem? cs i)
listed_from p n i [] = refl
listed_from p n zero (c ∷ cs) = ground (arith, listed_below p (n + 1) n cs)
listed_from p n (suc i) (c ∷ cs) = ground (arith, listed_from p (n + 1) i cs)

module _ (lower : ℕ → ℕ) (cs : List TargetCandidateView) (query : WString) (i : ℕ) where
  record Right (r : AutoTargetMatches) : Type 0 where
    pub lists : listed i r.indices ≡ satisfied (matches_at lower query r.rank) (get_elem? cs i)

  if-Right : (b : Bool) {x y : AutoTargetMatches} → Right x → Right y → Right (if b then x else y)
  if-Right true h k = h
  if-Right false h k = k

  at_rank : (r : AutoTargetMatchRank) → Right (result r (collect (matches_at lower query r) 0 cs))
  at_rank r = record { lists = ground (arith, listed_from (matches_at lower query r) 0 i cs) }

  at_none : (o : Option TargetCandidateView) → false ≡ satisfied (matches_at lower query no_match) o
  unfolding matches_at
  at_none none = refl
  at_none (some c) = refl

  nowhere : Right (result no_match [])
  nowhere = record { lists = at_none (get_elem? cs i) }

  find-Right : Right (find_auto_target_matches lower cs query)
  unfolding find_auto_target_matches
  find-Right = if-Right (is_empty query) nowhere (
      if-Right (not (is_empty (collect (matches_at lower query exact_id) 0 cs))) (at_rank exact_id)
        (if-Right (not (is_empty (collect (matches_at lower query exact_alias_or_name) 0 cs)))
          (at_rank exact_alias_or_name)
          (if-Right
            (leb 6 (length (normalize_hex lower query))
              && not (is_empty (collect (matches_at lower query mac_fragment) 0 cs)))
            (at_rank mac_fragment)
            (if-Right
              (not (is_empty (collect (matches_at lower query alias_or_name_substring) 0 cs)))
              (at_rank alias_or_name_substring) nowhere))))

satisfied_iff :
    (lower : ℕ → ℕ) (query : WString) (r : AutoTargetMatchRank) (o : Option TargetCandidateView)
    → (satisfied (matches_at lower query r) o ≡ true) ↔ NamesAt lower query r o
satisfied_iff lower query r none = (λ h. cc, λ h. absurd h)
satisfied_iff lower query r (some c) = matches_at_iff lower query r c

-- The matches are complete and right: an index is listed exactly where there is a candidate that the query
-- names in the way of the rank that is answered.
pub find_lists_matches :
    (lower : ℕ → ℕ) (cs : List TargetCandidateView) (query : WString) (i : ℕ)
    → let r = find_auto_target_matches lower cs query in
      (listed i r.indices ≡ true) ↔ NamesAt lower query r.rank (get_elem? cs i)
find_lists_matches lower cs query i =
    let e = (find-Right lower cs query i).lists in
    let k =
      satisfied_iff lower query (find_auto_target_matches lower cs query).rank (get_elem? cs i) in
    (λ h. k.0 (sym e ∙ h), λ h. e ∙ k.1 h)
