-- ===== src/Text/Utf16/Truncate.antt =====
-- TruncateUtf16: the result is bounded, well formed, and the longest such prefix.
use Prim.Native.Nat.{min}
use audio_playback_connector.Prelude.{
  ℕ, zero, suc, ◌≤◌, ◌<◌, ◌≡◌, refl, inl, inr, Bool, true, false, not, [], ◌∷◌, arith, Bool-cases,
  length, take, length-take, ◌||◌, ◌+◌, ℕ_discrete, subst,
}
use audio_playback_connector.Text.Utf16.{
  WString, is_high_surrogate, is_valid_utf16, is_bounded_utf16, contains_unit, unit_at, cut_at,
  truncate_utf16,
}
use audio_playback_connector.Text.Utf16.WellFormed.{
  WellFormed, empty, unit, pair, is_valid_utf16_iff, high_not_repeated,
}

-- Whether a prefix of `n` units ends in a high surrogate.
abbrev ends_high : WString → ℕ → Bool
ends_high w zero = false
ends_high w (suc k) = is_high_surrogate (unit_at w k)

take-WellFormed :
    {w : WString} (n : ℕ) → WellFormed w → ends_high w n ≡ false → WellFormed (take n w)
unfolding unit_at
take-WellFormed zero r e = empty
take-WellFormed (suc n) empty e = empty
take-WellFormed (suc zero) (unit out r) e = unit out empty
take-WellFormed (suc (suc n)) (unit out r) e = unit out (take-WellFormed (suc n) r e)
take-WellFormed (suc zero) (pair high low r) e = absurd (ground arith)
take-WellFormed (suc (suc zero)) (pair high low r) e = pair high low empty
take-WellFormed (suc (suc (suc n))) (pair high low r) e =
    pair high low (take-WellFormed (suc n) r e)

-- A well-formed text does not end in a high surrogate.
no_trailing_high :
    {w : WString} (k : ℕ)
    → WellFormed w
    → length w ≡ suc k
    → is_high_surrogate (unit_at w k) ≡ false
unfolding unit_at
no_trailing_high k empty e = absurd (omega arith)
no_trailing_high zero (unit out r) e = ground arith
no_trailing_high (suc k) (unit out r) e = no_trailing_high k r (omega arith)
no_trailing_high zero (pair high low r) e = absurd (omega arith)
no_trailing_high (suc zero) (pair high low r) e = ground arith
no_trailing_high (suc (suc k)) (pair high low r) e = no_trailing_high k r (omega arith)

unit_at-take : (n k : ℕ) (w : WString) → k < n → unit_at (take n w) k ≡ unit_at w k
unfolding unit_at
unit_at-take zero k w h = absurd (omega arith)
unit_at-take (suc n) k [] h = refl
unit_at-take (suc n) zero (c ∷ w) h = refl
unit_at-take (suc n) (suc k) (c ∷ w) h = unit_at-take n k w (omega arith)

take-ends_high :
    (n : ℕ) (w : WString) → n ≤ length w → WellFormed (take n w) → ends_high w n ≡ false
take-ends_high zero w le t = refl
take-ends_high (suc k) w le t =
    rw (← unit_at-take (suc k) k w (omega arith))
      (no_trailing_high k t (omega (arith, length-take (suc k) w)))

contains_unit-take :
    (a n : ℕ) (w : WString) → contains_unit a w ≡ false → contains_unit a (take n w) ≡ false
unfolding contains_unit
contains_unit-take a zero w h = refl
contains_unit-take a (suc n) [] h = refl
contains_unit-take a (suc n) (c ∷ w) h = ground (arith, contains_unit-take a n w)

cut_at-le : (w : WString) (n : ℕ) → (cut_at w n ≤ n) × (n ≤ cut_at w n + 1)
unfolding cut_at
cut_at-le w n = ground arith

-- The cut is never behind a high surrogate.
cut_at-ends_high :
    (w : WString) (n : ℕ) → WellFormed w → n ≤ length w → ends_high w (cut_at w n) ≡ false
unfolding cut_at
cut_at-ends_high w zero r le = ground arith
cut_at-ends_high w (suc zero) r le = ground (arith, no_trailing_high 0 r)
cut_at-ends_high w (suc (suc k)) r le =
    ground (arith, no_trailing_high (suc k) r, high_not_repeated k r)

-- A unit is given up only behind a high surrogate.
cut_at_keeps : (w : WString) (n : ℕ) → ends_high w n ≡ false → cut_at w n ≡ n
unfolding cut_at
cut_at_keeps w zero e = ground arith
cut_at_keeps w (suc k) e = ground arith

cut_at_longest :
    (w : WString) (n m : ℕ) → m ≤ n → n ≤ length w → WellFormed (take m w) → m ≤ cut_at w n
cut_at_longest w n m a b t = elim (ℕ_discrete m n) [
  | yes e ↦ omega (
    arith,
    cut_at_keeps w n (subst (λ k. ends_high w k ≡ false) e (take-ends_high m w (omega arith) t)),
  )
  | no e ↦ omega (arith, cut_at-le w n)
]

pub nil-bounded : (limit : ℕ) → is_bounded_utf16 [] limit ≡ true
unfolding is_bounded_utf16 contains_unit is_valid_utf16
nil-bounded limit = ground arith

-- Whatever the text and the limit, the result is well formed, without NUL and within the limit.
pub truncate_utf16-bounded :
    (w : WString) (limit : ℕ) → is_bounded_utf16 (truncate_utf16 w limit) limit ≡ true
unfolding truncate_utf16 is_bounded_utf16
truncate_utf16-bounded w limit = elim (Bool-cases (contains_unit 0 w || not (is_valid_utf16 w))) [
  | inl rejected ↦ rw rejected (nil-bounded limit)
  | inr accepted ↦ rw accepted (
      ground (
        arith,
        cut_at-le w (min (length w) limit),
        length-take (cut_at w (min (length w) limit)) w,
        contains_unit-take 0 (cut_at w (min (length w) limit)) w,
        (is_valid_utf16_iff (take (cut_at w (min (length w) limit)) w)).1 (
            take-WellFormed (cut_at w (min (length w) limit))
              ((is_valid_utf16_iff w).0 (ground arith))
              (cut_at-ends_high w (min (length w) limit) ((is_valid_utf16_iff w).0 (ground arith))
                (omega arith))),
      ))
]

-- Of a text that is well formed and has no NUL, the result is a prefix, and no well-formed prefix
-- within the limit is longer.
pub truncate_utf16_longest :
    (w : WString) (limit m : ℕ)
    → is_valid_utf16 w ≡ true
    → contains_unit 0 w ≡ false
    → m ≤ limit
    → m ≤ length w
    → WellFormed (take m w)
    → (truncate_utf16 w limit ≡ take (length (truncate_utf16 w limit)) w)
      × (m ≤ length (truncate_utf16 w limit))
unfolding truncate_utf16
truncate_utf16_longest w limit m v z a b t =
    rw (v, z)
      (rw cut_kept (refl, cut_at_longest w (min (length w) limit) m (omega arith) (omega arith) t))
  where
    cut_kept : length (take (cut_at w (min (length w) limit)) w) ≡ cut_at w (min (length w) limit)
    cut_kept =
        omega (
          arith,
          cut_at-le w (min (length w) limit),
          length-take (cut_at w (min (length w) limit)) w,
        )
