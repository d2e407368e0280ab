-- ===== src/App/ResourcePressure.antt =====
-- AudioPlaybackConnector2/src/app/ResourcePressureState.cpp: what the probes of memory, user activity
-- and energy saver say, and what background work they allow.
use audio_playback_connector.Prelude.{
  ℕ, ◌-◌, ◌≡◌, ◌≢◌, ◌↔◌, ◌⊎◌, Bool, true, false, not, ◌&&◌, ◌||◌, Option, none, some, arith, ltb,
  leb, if◌then◌else◌, is_some,
}

pub data MemoryPressureState : Type 0 where
  unknown_memory low neutral high : MemoryPressureState

pub data UserActivityState : Type 0 where
  unknown_activity available not_present busy fullscreen presentation quiet_time immersive_app :
      UserActivityState

pub record ResourcePressureValues : Type 0 where
  pub memory : MemoryPressureState
  pub user_activity : UserActivityState
  pub energy_saver : Option Bool

pub record ResourcePressureProbe : Type 0 where
  pub low_memory_signaled : Option Bool
  pub high_memory_signaled : Option Bool
  pub user_activity : Option UserActivityState
  pub energy_saver : Option Bool
  pub memory_probe_attempted : Bool
  pub user_activity_probe_attempted : Bool
  pub energy_saver_probe_attempted : Bool

abbrev pub unknown_values : ResourcePressureValues
unknown_values = record {
  memory = unknown_memory;
  user_activity = unknown_activity;
  energy_saver = none;
}

abbrev pub is_low : MemoryPressureState → Bool
is_low low = true
is_low _ = false

unfoldable pub is_memory_pressure : ResourcePressureValues → Bool
is_memory_pressure v = is_low v.memory

unfoldable pub has_reliable_memory_state : ResourcePressureValues → Bool
has_reliable_memory_state v = elim v.memory [ unknown_memory ↦ false | _ ↦ true ]

-- `value_or(true)`.
abbrev pub or_true : Option Bool → Bool
or_true none = true
or_true (some b) = b

abbrev pub constrains : UserActivityState → Bool
constrains available = false
constrains quiet_time = false
constrains _ = true

unfoldable pub is_background_constrained : ResourcePressureValues → Bool
is_background_constrained v =
    is_memory_pressure v
    || not (has_reliable_memory_state v)
    || or_true v.energy_saver
    || constrains v.user_activity

abbrev pub is_available : UserActivityState → Bool
is_available available = true
is_available _ = false

abbrev pub is_high : MemoryPressureState → Bool
is_high high = true
is_high _ = false

abbrev pub is_off : Option Bool → Bool
is_off none = false
is_off (some b) = not b

abbrev pub is_on : Option Bool → Bool
is_on none = false
is_on (some b) = b

unfoldable pub can_preload : ResourcePressureValues → Bool
can_preload v = is_high v.memory && is_off v.energy_saver && is_available v.user_activity

-- The memory part of Apply.
unfoldable pub applied_memory : ResourcePressureProbe → MemoryPressureState → MemoryPressureState
applied_memory p m =
    let was_low = is_low m in
    if is_on p.low_memory_signaled
    then low
    else if is_some p.low_memory_signaled && is_some p.high_memory_signaled
    then (if is_on p.high_memory_signaled then high else neutral)
    else if is_off p.low_memory_signaled || (is_off p.high_memory_signaled && not was_low)
    then neutral
    else if (p.memory_probe_attempted
          || is_some p.low_memory_signaled
          || is_some p.high_memory_signaled)
        && not was_low
    then unknown_memory
    else m

-- ResourcePressureStateReducer::Apply.
unfoldable pub apply : ResourcePressureProbe → ResourcePressureValues → ResourcePressureValues
apply p v = record {
  memory = applied_memory p v.memory;
  user_activity = elim p.user_activity [
    | some a ↦ a
    | none ↦ if p.user_activity_probe_attempted then unknown_activity else v.user_activity
  ];
  energy_saver =
      if is_some p.energy_saver
      then p.energy_saver
      else if p.energy_saver_probe_attempted
      then none
      else v.energy_saver;
}

unfoldable pub is_resource_pressure_snapshot_fresh : Option ℕ → ℕ → ℕ → Bool
is_resource_pressure_snapshot_fresh none now maximum_age = false
is_resource_pressure_snapshot_fresh (some t) now maximum_age =
    ltb 0 maximum_age && leb t now && ltb (now - t) maximum_age

unfoldable pub is_positive_resource_authorization_current : ℕ → ℕ → Bool
is_positive_resource_authorization_current applied_sequence latest_constrained_sequence =
    leb latest_constrained_sequence applied_sequence

unfoldable pub should_use_constrained_poll_interval : ResourcePressureValues → Bool → Bool
should_use_constrained_poll_interval v probes_complete =
    probes_complete && is_background_constrained v

-- PlanMemoryNotificationWaits: whether to arm the low and the high notification.
unfoldable pub plan_memory_notification_waits : Option Bool → Option Bool → Bool × Bool
plan_memory_notification_waits none h = (false, false)
plan_memory_notification_waits (some l) none = (false, false)
plan_memory_notification_waits (some l) (some h) = if l && h then (false, false) else (not l, not h)

-- Preloading is allowed only where nothing constrains background work.
pub preload_is_unconstrained :
    (v : ResourcePressureValues) → can_preload v ≡ true → is_background_constrained v ≡ false
unfolding can_preload is_background_constrained is_memory_pressure has_reliable_memory_state
preload_is_unconstrained v e = ground arith

-- A probe that was attempted and told nothing of memory, of the user or of the energy saver leads to
-- values that constrain background work and forbid preloading.
pub failed_probe_constrains :
    (p : ResourcePressureProbe) (v : ResourcePressureValues)
    → ((p.memory_probe_attempted ≡ true)
        × (p.low_memory_signaled ≡ none)
        × (p.high_memory_signaled ≡ none))
      ⊎ (((p.user_activity_probe_attempted ≡ true) × (p.user_activity ≡ none))
          ⊎ ((p.energy_saver_probe_attempted ≡ true) × (p.energy_saver ≡ none)))
    → (is_background_constrained (apply p v) ≡ true) × (can_preload (apply p v) ≡ false)
unfolding can_preload is_background_constrained is_memory_pressure has_reliable_memory_state apply
    applied_memory
failed_probe_constrains p v h = ground arith

-- Low memory stays reported until a probe says that the low-memory signal is off.
pub low_memory_is_sticky :
    (p : ResourcePressureProbe) (v : ResourcePressureValues)
    → v.memory ≡ low
    → ((apply p v).memory ≢ low) ↔ (p.low_memory_signaled ≡ some false)
unfolding apply applied_memory
low_memory_is_sticky p v e = ground arith
