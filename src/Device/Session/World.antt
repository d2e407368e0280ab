-- ===== src/Device/Session/World.antt =====
-- A session's history: its operations and callbacks, in any order and with any arguments, each run to
-- its end on the serialized executor. A timer carries the epochs that it was scheduled under, and a
-- callback of the timer that is the current one carries its epochs.
use audio_playback_connector.Device.Session.Control.{
  rename, connect, disconnect, set_incoming_enabled,
}
use audio_playback_connector.Device.Session.Data.{
  Session, ConnectionState, Platform, OperationKind, ConnectionResult, transient_timer,
}
use audio_playback_connector.Device.Session.Events.{
  on_started, on_opened, on_state_changed, on_post_failed, complete_close_cooldown,
  complete_close_barrier, on_retry_timer, on_transient_open_retry_timer,
}
use audio_playback_connector.Device.Session.Policy.{
  cancel_reconnect, set_reconnect_enabled, handle_device_removed,
}
use audio_playback_connector.Device.Session.Power.{
  suspend_session, resume_session, resume_idle_after_power_transition,
  cancel_power_transition_recovery, shutdown,
}
use audio_playback_connector.Prelude.{true, ℕ, ◌≡◌, Bool, some}

pub data Step (p : Platform) (s : Session) : Session → Type 0 where
  removed : Step p s (handle_device_removed p s)
  connects : (op : OperationKind) (b : Bool) → Step p s (connect p op b s)
  disconnects : (b : Bool) → Step p s (disconnect p b s).0
  cancels : Step p s (cancel_reconnect p s)
  enables_reconnect : (b : Bool) → Step p s (set_reconnect_enabled p b s)
  enables_incoming : (b : Bool) → Step p s (set_incoming_enabled p b s)
  suspends : Step p s (suspend_session p s)
  resumes : Step p s (resume_session p s)
  resumes_idle : Step p s (resume_idle_after_power_transition s)
  cancels_recovery : Step p s (cancel_power_transition_recovery s)
  renames : Step p s (rename s)
  shuts_down : Step p s (shutdown s)
  starts : (epoch h : ℕ) (r : ConnectionResult) → Step p s (on_started p epoch h r s)
  opens : (epoch h : ℕ) (r : ConnectionResult) (b : Bool) → Step p s (on_opened p epoch h r b s)
  changes : (epoch h : ℕ) (c : ConnectionState) → Step p s (on_state_changed p epoch h c s)
  post_failed : (epoch h : ℕ) → Step p s (on_post_failed p epoch h s)
  closes : (barrier : ℕ) (b : Bool) → Step p s (complete_close_barrier p barrier b s)
  cools : (barrier : ℕ) → Step p s (complete_close_cooldown p barrier true s)
  retries : (timer op : ℕ) → Step p s (on_retry_timer p timer op s)
  reopens :
      (timer op : ℕ)
      → (timer ≡ s.timer_epoch → s.reconnect_timer ≡ some (transient_timer timer op))
      → Step p s (on_transient_open_retry_timer p timer op s)

pub data Reach (p : Platform) (s : Session) : Session → Type 0 where
  here : Reach p s s
  next : {t u : Session} → Reach p s t → Step p t u → Reach p s u
