-- ===== src/App/Backoff.antt =====
-- `AdaptiveActionRetryBackoff` (AudioPlaybackConnector2/include/app/AdaptiveActionRetryBackoff.hpp and
-- AudioPlaybackConnector2/src/app/AdaptiveActionRetryBackoff.cpp), with delays in milliseconds.
-- Delays are the natural numbers that stay after the constructor's `max(initialDelay, 1)`.
use audio_playback_connector.Prelude.{
  ℕ, zero, suc, ◌-◌, ◌*◌, ◌^◌, ◌≤◌, ◌≡◌, refl, arith, ltb, leb, if◌then◌else◌,
}
use Prim.Native.Nat.{min, max}
use native.Mathlib.Nat.{pow-succ'}

pub record Backoff : Type 0 where
  pub initial_delay : ℕ
  pub maximum_delay : ℕ
  pub current_delay : ℕ

-- The constructor.
unfoldable pub make_backoff : ℕ → ℕ → Backoff
make_backoff initial maximum =
    let first = max initial 1 in
    record { initial_delay = first; maximum_delay = max maximum first; current_delay = first }

-- RecordFailure: the delay to wait, and the next state.
unfoldable pub record_failure : Backoff → ℕ × Backoff
record_failure b =
    let remaining = b.maximum_delay - b.current_delay in
    if leb b.maximum_delay b.current_delay then (b.current_delay, b) else (
      b.current_delay,
      record b {
        current_delay =
            if ltb remaining b.current_delay then b.maximum_delay else b.current_delay * 2;
      },
    )

unfoldable pub reset : Backoff → Backoff
reset b = record b { current_delay = b.initial_delay }

-- The state after so many failures in a row.
abbrev pub failures : ℕ → Backoff → Backoff
failures zero b = b
failures (suc n) b = (record_failure (failures n b)).1

record_failure_lem :
    (first current maximum : ℕ)
    → current ≤ maximum
    → record_failure
        record { initial_delay = first; maximum_delay = maximum; current_delay = current }
      ≡ (
        current,
        record {
          initial_delay = first;
          maximum_delay = maximum;
          current_delay = min (current * 2) maximum;
        },
      )
unfolding record_failure
record_failure_lem f c m h = ground arith

failures-suc : (n : ℕ) (b : Backoff) → failures (suc n) b ≡ (record_failure (failures n b)).1
failures-suc n b = refl

failures_lem :
    (first maximum n : ℕ) (b : Backoff)
    → b ≡ record { initial_delay = first; maximum_delay = max maximum first; current_delay = first }
    → failures n b ≡ record {
      initial_delay = first;
      maximum_delay = max maximum first;
      current_delay = min (first * 2 ^ n) (max maximum first);
    }
failures_lem f m zero b e = ground (arith, e)
failures_lem f m (suc n) b e =
    rw
      (
        failures-suc n b,
        failures_lem f m n b e,
        record_failure_lem f (min (f * 2 ^ n) (max m f)) (max m f) (omega arith),
        pow-succ' 2 n,
      )
      (ground arith)

-- After n failures in a row from a new backoff, with both bounds as the constructor mends them, the
-- delay answered next is the first delay doubled n times, or the greatest one if that is less.
pub failures_double :
    (initial maximum n : ℕ)
    → (record_failure (failures n (make_backoff initial maximum))).0
      ≡ min (max initial 1 * 2 ^ n) (max maximum (max initial 1))
unfolding record_failure make_backoff
failures_double i m n = rw (failures_lem (max i 1) m n (make_backoff i m) refl) (ground arith)
