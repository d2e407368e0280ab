-- ===== src/Prelude/Int.antt =====
-- Signed integers over the native numbers.
use audio_playback_connector.Prelude.{ℕ}

-- `negsuc n` is -(n + 1).
pub data ℤ : Type 0 where
  pos : ℕ → ℤ
  negsuc : ℕ → ℤ
