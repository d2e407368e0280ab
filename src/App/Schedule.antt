-- ===== src/App/Schedule.antt =====
-- `AdaptiveScheduleState` (AudioPlaybackConnector2/include/app/AdaptiveScheduleState.hpp and
-- AudioPlaybackConnector2/src/app/AdaptiveScheduleState.cpp): which of several scheduled wake-ups is
-- the live one. Time points are natural numbers.
use audio_playback_connector.Prelude.{
  ℕ, ◌+◌, ◌%◌, ◌^◌, ◌≤◌, ◌<◌, ◌≡◌, ◌≢◌, Bool, true, false, not, ◌||◌, Option, none, some, List, [],
  ◌∷◌, arith, ltb, ◌==◌, if◌then◌else◌,
}

pub record ScheduleState : Type 0 where
  pub generation : ℕ
  pub win32_not_before : Option ℕ
  pub is_active : Bool

abbrev pub fresh_schedule : ScheduleState
fresh_schedule = record { generation = 0; win32_not_before = none; is_active = false }

-- `++m_generation`, twice where the counter has wrapped around to 0.
unfoldable pub next_generation : ℕ → ℕ
next_generation g = let h = (g + 1) % 2 ^ 64 in if h == 0 then 1 else h

-- Supersede, which answers the generation.
unfoldable pub supersede : ScheduleState → ScheduleState × ℕ
supersede s =
    let g = next_generation s.generation in
    (record { generation = g; win32_not_before = none; is_active = true }, g)

unfoldable pub set_win32_not_before : ℕ → ℕ → ScheduleState → ScheduleState × Bool
set_win32_not_before generation not_before s =
    if not (generation == s.generation) || not s.is_active
    then (s, false)
    else (record s { win32_not_before = some not_before }, true)

unfoldable pub consume : ℕ → ScheduleState → ScheduleState × Bool
consume generation s =
    if not (generation == s.generation) || not s.is_active
    then (s, false)
    else (record s { win32_not_before = none; is_active = false }, true)

unfoldable pub consume_win32_if_due : ℕ → ScheduleState → ScheduleState × Bool
consume_win32_if_due now s = elim s.win32_not_before [
  | none ↦ (s, false)
  | some due ↦
      if not s.is_active || ltb now due
      then (s, false)
      else (record s { win32_not_before = none; is_active = false }, true)
]

-- One call that may consume the wake-up, or set when it is due.
pub data Wake : Type 0 where
  consumes : ℕ → Wake
  polls : ℕ → Wake
  sets : ℕ → ℕ → Wake

-- The state after a call, and whether the call took the wake-up.
abbrev pub wake : Wake → ScheduleState → ScheduleState × Bool
wake (consumes g) s = consume g s
wake (polls now) s = consume_win32_if_due now s
wake (sets g t) s = ((set_win32_not_before g t s).0, false)

-- The state after calls, the last one first, and how many of them took the wake-up.
abbrev pub wakes : List Wake → ScheduleState → ScheduleState × ℕ
wakes [] s = (s, 0)
wakes (w ∷ ws) s =
    let (t, n) = wakes ws s in let (u, taken) = wake w t in (u, if taken then n + 1 else n)

-- Taken once, the schedule is idle until it is superseded.
wakes_lem :
    (ws : List Wake) (s : ScheduleState)
    → ((wakes ws s).0.is_active ≡ true → (wakes ws s).1 ≡ 0) × ((wakes ws s).1 ≤ 1)
unfolding consume consume_win32_if_due set_win32_not_before
wakes_lem [] s = ground arith
wakes_lem (consumes g ∷ ws) s = ground (arith, wakes_lem ws s)
wakes_lem (polls now ∷ ws) s = ground (arith, wakes_lem ws s)
wakes_lem (sets g t ∷ ws) s = ground (arith, wakes_lem ws s)

-- Between two calls of Supersede, at most one call takes the wake-up, whichever calls come, with
-- whatever generations and times.
pub taken_at_most_once : (ws : List Wake) (s : ScheduleState) → (wakes ws (supersede s).0).1 ≤ 1
taken_at_most_once ws s = (wakes_lem ws (supersede s).0).1

-- After Supersede its generation takes the wake-up and is not 0; the generation before, where the
-- counter was in its range, neither takes it nor sets when it is due.
pub superseded_is_dead :
    (s : ScheduleState) (t : ℕ)
    → s.generation < 2 ^ 64
    → let (u, g) = supersede s in
      (g ≢ 0)
      × (g < 2 ^ 64)
      × ((consume g u).1 ≡ true)
      × (consume s.generation u ≡ (u, false))
      × (set_win32_not_before s.generation t u ≡ (u, false))
unfolding supersede consume set_win32_not_before next_generation
superseded_is_dead s t h = ground arith
