-- ===== src/Control/Targets/Meaning.antt =====
-- What it means that a query names a device, rank by rank, told without the tests of
-- AudioPlaybackConnector2/include/control/ControlTargetMatcher.hpp and of
-- AudioPlaybackConnector2/include/util/Text.hpp.
use audio_playback_connector.Control.Targets.{
  some, Option, TargetCandidateView, AutoTargetMatchRank, no_match, exact_id, exact_alias_or_name,
  mac_fragment, alias_or_name_substring, lower_invariant, equals_ignore_case, starts_with, occurs,
  is_hex, contains_ignore_case, normalize_hex, matches_at,
}
use audio_playback_connector.Prelude.{
  ℕ, ◌≡◌, ◌≢◌, ◌⊎◌, ◌↔◌, ◌≤◌, inl, inr, refl, ap, sym, ◌∙◌, Bool, true, false, ◌||◌, [], ◌∷◌, ◌++◌,
  arith, length, Bool-cases, Option, none, some,
}
use audio_playback_connector.Text.{same_iff}
use audio_playback_connector.Text.Utf16.{WString}

-- `needle` stands somewhere in `hay`.
pub record Within (needle hay : WString) : Type 0 where
  pub before : WString
  pub after : WString
  pub joined : hay ≡ before ++ needle ++ after

-- The strings agree, whatever the case of their letters.
abbrev pub Agrees : (ℕ → ℕ) → WString → WString → Type 0
Agrees lower v w = lower_invariant lower v ≡ lower_invariant lower w

-- The query is not empty, and stands in the text, whatever the case of the letters.
abbrev pub Mentions : (ℕ → ℕ) → WString → WString → Type 0
Mentions lower v query =
    (query ≢ []) × Within (lower_invariant lower query) (lower_invariant lower v)

-- A hexadecimal digit, of either case.
abbrev IsDigit : ℕ → Type 0
IsDigit c = ((48 ≤ c) × (c ≤ 57)) ⊎ ((97 ≤ c) × (c ≤ 102)) ⊎ ((65 ≤ c) × (c ≤ 70))

-- The hexadecimal digits of a text in their order, in lower case.
pub data Digits (lower : ℕ → ℕ) : WString → WString → Type 0 where
  ended : Digits lower [] []
  digit :
      {c : ℕ} {w v : WString} → IsDigit c → Digits lower w v → Digits lower (c ∷ w) (lower c ∷ v)
  other : {c : ℕ} {w v : WString} → ¬ IsDigit c → Digits lower w v → Digits lower (c ∷ w) v

-- The digits of the query stand in a row among those of the text.
pub record SharesDigits (lower : ℕ → ℕ) (query text : WString) : Type 0 where
  pub asked : WString
  pub given : WString
  pub query_digits : Digits lower query asked
  pub text_digits : Digits lower text given
  pub within : Within asked given

-- A query names a device: by its whole identifier; by its whole alias or name; by hexadecimal digits
-- that stand in a row among those of the identifier; or by a part of its alias or name.
abbrev pub Names : (ℕ → ℕ) → WString → AutoTargetMatchRank → TargetCandidateView → Type 0
Names lower query no_match c = ⊥
Names lower query exact_id c = Agrees lower c.id query
Names lower query exact_alias_or_name c = Agrees lower c.alias query ⊎ Agrees lower c.name query
Names lower query mac_fragment c = SharesDigits lower query c.id
Names lower query alias_or_name_substring c =
    Mentions lower c.alias query ⊎ Mentions lower c.name query

-- The query names the device at a place of the list, where there is one.
abbrev pub NamesAt : (ℕ → ℕ) → WString → AutoTargetMatchRank → Option TargetCandidateView → Type 0
NamesAt lower query r none = ⊥
NamesAt lower query r (some c) = Names lower query r c

length-lower_invariant : (lower : ℕ → ℕ) (w : WString) → length (lower_invariant lower w) ≡ length w
unfolding lower_invariant
length-lower_invariant lower [] = refl
length-lower_invariant lower (c ∷ w) = omega (arith, length-lower_invariant lower w)

equals_ignore_case_iff :
    (lower : ℕ → ℕ) (v w : WString) → (equals_ignore_case lower v w ≡ true) ↔ Agrees lower v w
unfolding equals_ignore_case
equals_ignore_case_iff lower v w = (
  λ h. (same_iff _ _).0 (ground arith),
  λ h.
      let n : length v ≡ length w =
        sym (length-lower_invariant lower v) ∙ ap length h ∙ length-lower_invariant lower w in
      let s = (same_iff (lower_invariant lower v) (lower_invariant lower w)).1 h in ground arith,
)

starts_with-append : (v w : WString) → starts_with v (v ++ w) ≡ true
starts_with-append [] w = refl
starts_with-append (c ∷ v) w = ground (arith, starts_with-append v w)

starts_with-splits : (v w : WString) → starts_with v w ≡ true → (u : WString) × (w ≡ v ++ u)
starts_with-splits [] w h = (w, refl)
starts_with-splits (c ∷ v) [] h = absurd (cc)
starts_with-splits (c ∷ v) (d ∷ w) h =
    let (u, e) = starts_with-splits v w (ground arith) in
    let k : c ≡ d = ground arith in (u, rw (k, e) refl)

occurs-Within : (v w : WString) → occurs v w ≡ true → Within v w
unfolding occurs
occurs-Within [] [] h = record { before = []; after = []; joined = refl }
occurs-Within (c ∷ v) [] h = absurd (cc)
occurs-Within v (d ∷ w) h = elim (Bool-cases (starts_with v (d ∷ w))) [
  | inl e ↦
      let (u, k) = starts_with-splits v (d ∷ w) e in record { before = []; after = u; joined = k }
  | inr e ↦
      let r : occurs v w ≡ true = ground arith in
      let k = occurs-Within v w r in
      record { before = d ∷ k.before; after = k.after; joined = ap (λ x. d ∷ x) k.joined }
]

starts_with-occurs : (v w : WString) → starts_with v w ≡ true → occurs v w ≡ true
unfolding occurs
starts_with-occurs [] [] h = refl
starts_with-occurs (c ∷ v) [] h = absurd (cc)
starts_with-occurs v (d ∷ w) h = ground arith

occurs-append : (v before after : WString) → occurs v (before ++ v ++ after) ≡ true
unfolding occurs
occurs-append v [] after = starts_with-occurs v (v ++ after) (starts_with-append v after)
occurs-append v (c ∷ before) after = ground (arith, occurs-append v before after)

Within-occurs : (v w : WString) → Within v w → occurs v w ≡ true
Within-occurs v w k = rw (k.joined) (occurs-append v k.before k.after)

contains_ignore_case_iff :
    (lower : ℕ → ℕ) (v query : WString)
    → (contains_ignore_case lower v query ≡ true) ↔ Mentions lower v query
unfolding contains_ignore_case
contains_ignore_case_iff lower v [] = (λ h. absurd (cc), λ h. absurd (h.0 refl))
contains_ignore_case_iff lower v (c ∷ query) =
    (λ h. (λ e. cc, occurs-Within _ _ h), λ h. Within-occurs _ _ h.1)

is_hex_iff : (c : ℕ) → (is_hex c ≡ true) ↔ IsDigit c
is_hex_iff c = (λ h. ground arith, λ h. ground arith)

normalize_hex-Digits : (lower : ℕ → ℕ) (w : WString) → Digits lower w (normalize_hex lower w)
unfolding normalize_hex
normalize_hex-Digits lower [] = ended
normalize_hex-Digits lower (c ∷ w) = elim (Bool-cases (is_hex c)) [
  | inl e ↦ rw (e) (digit ((is_hex_iff c).0 e) (normalize_hex-Digits lower w))
  | inr e ↦ rw (e) (other (λ h. true_false ((is_hex_iff c).1 h) e) (normalize_hex-Digits lower w))
]
  where
    true_false : {b : Bool} → b ≡ true → b ≡ false → ⊥
    true_false h e = cc

Digits-normalize_hex :
    {lower : ℕ → ℕ} {w v : WString} → Digits lower w v → v ≡ normalize_hex lower w
unfolding normalize_hex
Digits-normalize_hex ended = refl
Digits-normalize_hex (digit {c} h d) = rw ((is_hex_iff c).1 h, Digits-normalize_hex d) refl
Digits-normalize_hex (other {c} h d) = elim (Bool-cases (is_hex c)) [
  | inl e ↦ absurd (h ((is_hex_iff c).0 e))
  | inr e ↦ rw (e) (Digits-normalize_hex d)
]

occurs_iff-SharesDigits :
    (lower : ℕ → ℕ) (query w : WString)
    → (occurs (normalize_hex lower query) (normalize_hex lower w) ≡ true)
      ↔ SharesDigits lower query w
occurs_iff-SharesDigits lower query w = (
  λ h. record {
    asked = normalize_hex lower query;
    given = normalize_hex lower w;
    query_digits = normalize_hex-Digits lower query;
    text_digits = normalize_hex-Digits lower w;
    within = occurs-Within _ _ h;
  },
  λ s.
      rw (sym (Digits-normalize_hex s.query_digits), sym (Digits-normalize_hex s.text_digits))
        (Within-occurs s.asked s.given s.within),
)

or_iff : {P Q : Type 0} (a b : Bool) → (a ≡ true) ↔ P → (b ≡ true) ↔ Q → ((a || b) ≡ true) ↔ (P ⊎ Q)
or_iff true b f g = (λ h. inl (f.0 refl), λ h. refl)
or_iff {P} {Q} false b f g = (λ h. inr (g.0 h), right)
  where
    right : P ⊎ Q → b ≡ true
    right (inl p) = absurd (cc (f.1 p))
    right (inr q) = g.1 q

-- The test of a rank is what the rank means.
pub matches_at_iff :
    (lower : ℕ → ℕ) (query : WString) (r : AutoTargetMatchRank) (c : TargetCandidateView)
    → (matches_at lower query r c ≡ true) ↔ Names lower query r c
unfolding matches_at
matches_at_iff lower query no_match c = (λ h. cc, λ h. absurd h)
matches_at_iff lower query exact_id c = equals_ignore_case_iff lower c.id query
matches_at_iff lower query exact_alias_or_name c =
    or_iff _ _ (equals_ignore_case_iff lower c.alias query)
      (equals_ignore_case_iff lower c.name query)
matches_at_iff lower query mac_fragment c = occurs_iff-SharesDigits lower query c.id
matches_at_iff lower query alias_or_name_substring c =
    or_iff _ _ (contains_ignore_case_iff lower c.alias query)
      (contains_ignore_case_iff lower c.name query)
