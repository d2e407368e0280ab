-- ===== src/Settings/Codec/Fields.antt =====
-- Looking up what was set in, or erased from, a JSON object.
use audio_playback_connector.Prelude.{true, false, ◌≡◌, sym, none, some, refl, Bool-cases, inl, inr}
use audio_playback_connector.Text.{same, same_iff}
use audio_playback_connector.Settings.Codec.Json.{
  Bytes, Json, Fields, no_fields, field, find, set, erase, before,
}

same_refl : (k : Bytes) → same k k ≡ true
same_refl k = (same_iff k k).1 refl

-- A key that is another than `k'` is another than a key that is the same as `k'`.
same_other : (k k' j : Bytes) → same k k' ≡ false → same k' j ≡ true → same k j ≡ false
same_other k k' j d e = rw (sym ((same_iff k' j).0 e)) d

pub find-erase : (k : Bytes) (fs : Fields) → find k (erase k fs) ≡ none
unfolding find erase
find-erase k no_fields = refl
find-erase k (field k' v' fs) = elim (Bool-cases (same k k')) [
  | inl e ↦ rw (e) (find-erase k fs)
  | inr e ↦ rw (e, e) (find-erase k fs)
]

pub find-erase-other :
    (k k' : Bytes) (fs : Fields) → same k k' ≡ false → find k (erase k' fs) ≡ find k fs
unfolding find erase
find-erase-other k k' no_fields d = refl
find-erase-other k k' (field j w fs) d = elim (Bool-cases (same k' j)) [
  | inl e ↦ rw (e, same_other k k' j d e, find-erase-other k k' fs d) refl
  | inr e ↦ rw (e, find-erase-other k k' fs d) refl
]

pub find-set : (k : Bytes) (v : Json) (fs : Fields) → find k (set k v fs) ≡ some v
unfolding find set
find-set k v no_fields = rw (same_refl k) refl
find-set k v (field k' v' fs) = elim (Bool-cases (same k k')) [
  | inl e ↦ rw (e, same_refl k) refl
  | inr e ↦ elim (Bool-cases (before k k')) [
    | inl b ↦ rw (e, b, same_refl k) refl
    | inr b ↦ rw (e, b, e) (find-set k v fs)
  ]
]

pub find-set-other :
    (k k' : Bytes) (v : Json) (fs : Fields) → same k k' ≡ false → find k (set k' v fs) ≡ find k fs
unfolding find set
find-set-other k k' v no_fields d = rw (d) refl
find-set-other k k' v (field j w fs) d = elim (Bool-cases (same k' j)) [
  | inl e ↦ rw (e, d, same_other k k' j d e) refl
  | inr e ↦ elim (Bool-cases (before k' j)) [
    | inl b ↦ rw (e, b, d, find-erase-other k k' fs d) refl
    | inr b ↦ rw (e, b, find-set-other k k' v fs d) refl
  ]
]
