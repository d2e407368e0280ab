-- ===== src/Text/Table.antt =====
-- Maps and sets with strings as keys: `std::unordered_map` and `std::unordered_set` of
-- AudioPlaybackConnector2/src/core/DeviceService.cpp. The code does not depend on their order.
use audio_playback_connector.Prelude.{
  Bool, true, false, ◌&&◌, ◌≡◌, refl, sym, Option, none, some, List, [], ◌∷◌, if◌then◌else◌,
  Bool-cases, inl, inr, Gives, gives, throws,
}
use audio_playback_connector.Text.{same, same_iff, contains}
use audio_playback_connector.Text.Utf16.{WString}

abbrev pub Table {ℓ} : Type ℓ → Type ℓ
Table A = List (WString × A)

module _ {ℓ} {A : Type ℓ} where
  unfoldable pub lookup : WString → Table A → Option A
  lookup k [] = none
  lookup k ((k', a) ∷ t) = let rest = lookup k t in if same k k' then some a else rest

  -- A write to the value of a key, which is added where it is missing.
  unfoldable pub put : WString → A → Table A → Table A
  put k a [] = (k, a) ∷ []
  put k a ((k', b) ∷ t) = let rest = put k a t in if same k k' then (k, a) ∷ t else (k', b) ∷ rest

  unfoldable pub remove : WString → Table A → Table A
  remove k [] = []
  remove k ((k', b) ∷ t) = let rest = remove k t in if same k k' then rest else (k', b) ∷ rest

  unfoldable pub keys : Table A → List WString
  keys [] = []
  keys ((k, a) ∷ t) = k ∷ keys t

  -- Every value satisfies a predicate.
  abbrev pub Every {κ} : (A → Type κ) → Table A → Type κ
  Every P [] = Unit
  Every P ((k, a) ∷ t) = P a × Every P t

  pub lookup-put : (k : WString) (a : A) (t : Table A) → lookup k (put k a t) ≡ some a
  unfolding lookup put
  lookup-put k a [] = rw ((same_iff k k).1 refl) refl
  lookup-put k a ((k', b) ∷ t) = elim (Bool-cases (same k k')) [
    | inl e ↦ rw (e, (same_iff k k).1 refl) refl
    | inr e ↦ rw (e, e) (lookup-put k a t)
  ]

  pub lookup-put-other :
      (k j : WString) (a : A) (t : Table A) → same k j ≡ false → lookup k (put j a t) ≡ lookup k t
  unfolding lookup put
  lookup-put-other k j a [] d = rw (d) refl
  lookup-put-other k j a ((k', b) ∷ t) d = elim (Bool-cases (same j k')) [
    | inl e ↦ rw (e, sym ((same_iff j k').0 e), d) refl
    | inr e ↦ rw (e, lookup-put-other k j a t d) refl
  ]

  pub lookup-remove : (k : WString) (t : Table A) → lookup k (remove k t) ≡ none
  unfolding lookup remove
  lookup-remove k [] = refl
  lookup-remove k ((k', b) ∷ t) = elim (Bool-cases (same k k')) [
    | inl e ↦ rw (e) (lookup-remove k t)
    | inr e ↦ rw (e, e) (lookup-remove k t)
  ]

  module _ {κ} (P : A → Type κ) where
    pub put-Every : (k : WString) (a : A) (t : Table A) → P a → Every P t → Every P (put k a t)
    unfolding put
    put-Every k a [] h g = (h, tt)
    put-Every k a ((k', b) ∷ t) h g = elim (Bool-cases (same k k')) [
      | inl e ↦ rw (e, put) (h, g.1)
      | inr e ↦ rw (e, put) (g.0, put-Every k a t h g.1)
    ]

    pub lookup-Every : (k : WString) (t : Table A) → Every P t → Gives P (lookup k t)
    unfolding lookup
    lookup-Every k [] g = throws
    lookup-Every k ((k', b) ∷ t) g = elim (Bool-cases (same k k')) [
      | inl h ↦ rw (h, lookup) (gives g.0)
      | inr h ↦ rw (h, lookup) (lookup-Every k t g.1)
    ]

-- The elements of an `std::unordered_set` made from a list.
unfoldable pub distinct : List WString → List WString
distinct [] = []
distinct (i ∷ is) = let rest = distinct is in if contains is i then rest else i ∷ rest

unfoldable pub all_in : List WString → List WString → Bool
all_in [] js = true
all_in (i ∷ is) js = contains js i && all_in is js

-- `==` of two `std::unordered_set`s.
abbrev pub same_set : List WString → List WString → Bool
same_set is js = all_in is js && all_in js is
