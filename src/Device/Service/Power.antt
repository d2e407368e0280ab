-- ===== src/Device/Service/Power.antt =====
-- Power transitions and the end of `DeviceService` (AudioPlaybackConnector2/src/core/DeviceService.cpp).
use audio_playback_connector.Prelude.{
  ℕ, Bool, true, false, not, ◌&&◌, ◌||◌, none, some, List, [], ◌∷◌, if◌then◌else◌, is_some, ◌==◌,
}
use audio_playback_connector.Text.{is_empty}
use audio_playback_connector.Text.Table.{Table, lookup, put, remove, distinct}
use audio_playback_connector.Text.Utf16.{WString}
use audio_playback_connector.Device.Session.Data.{
  Session, Lifecycle, connecting, connected, disconnecting, waiting_for_reconnect, Platform,
  same_lifecycle,
}
use audio_playback_connector.Device.Session.Power.{
  suspend_session, resume_session, resume_idle_after_power_transition,
  cancel_power_transition_recovery,
}
use audio_playback_connector.Device.Service.Data.{Service, Shown, session_changed, shutdown_fact}
use audio_playback_connector.Device.Service.Publish.{publish, act, for_each, for_each_session}
use audio_playback_connector.Device.Service.Commands.{epoch_of}

-- RequiresPowerTransitionRecovery.
abbrev pub requires_recovery : Session → Bool
requires_recovery s =
    same_lifecycle s.lifecycle connected
    || s.is_incoming_enabled
    || same_lifecycle s.lifecycle connecting
    || same_lifecycle s.lifecycle disconnecting
    || same_lifecycle s.lifecycle waiting_for_reconnect

unfoldable pub recovery_ids : Table Session → List WString
recovery_ids [] = []
recovery_ids ((id, s) ∷ t) =
    let rest = recovery_ids t in if requires_recovery s then id ∷ rest else rest

-- The epochs of the devices to recover.
unfoldable pub epochs_of : List WString → Table Session → Table ℕ
epochs_of [] t = []
epochs_of (id ∷ ids) t =
    let rest = epochs_of ids t in
    elim (lookup id t) [ none ↦ rest | some s ↦ put id s.operation_epoch rest ]

module _ (platform : WString → Platform) where
  -- CapturePowerTransitionRecoveryAndSuspend, which is Suspend and SuspendForPowerTransition.
  unfoldable pub suspend_service : Service → Service × List WString
  suspend_service s =
      let ids = recovery_ids s.sessions in
      let t =
        for_each_session (λ id. act id (suspend_session (platform id)))
          (record s { is_suspended = true }) in
      let u = record t { recovery_epochs = epochs_of ids t.sessions } in
      if s.is_shutdown || s.is_suspended then (s, []) else (publish session_changed [] u, ids)

  -- Resume, with the watcher's answer to Start.
  unfoldable pub resume_service : Bool → Service → Service
  resume_service watcher_started s =
      let t : Service = record s {
        is_suspended = false;
        recovery_epochs = [];
        is_running = s.is_running && watcher_started;
      } in
      let u = for_each_session (λ id. act id (resume_session (platform id))) t in
      if s.is_shutdown || not s.is_suspended then s else publish session_changed [] u

  -- ResumeAfterPowerTransition, likewise.
  unfoldable pub resume_after_power_transition : Bool → Service → Service
  resume_after_power_transition watcher_started s =
      let t : Service = record s {
        is_suspended = false;
        is_running = s.is_running && watcher_started;
      } in
      let u = for_each_session (λ id. act id resume_idle_after_power_transition) t in
      if s.is_shutdown then s else publish session_changed [] (if s.is_suspended then u else t)

  -- The body of ResumeSuspendedSessions' loop.
  unfoldable pub resume_suspended_session : WString → Service → Service
  resume_suspended_session id s =
      let forgotten = remove id s.recovery_epochs in
      let cancelled = act id cancel_power_transition_recovery s in
      let resumed = act id (resume_session (platform id)) s in
      if is_empty id then s else elim (lookup id s.recovery_epochs) [
        | none ↦ s
        | some epoch ↦
            if is_some (lookup id s.sessions) && epoch_of (lookup id s.sessions) == epoch
            then record resumed { recovery_epochs = forgotten }
            else record cancelled { recovery_epochs = forgotten }
      ]

  unfoldable pub resume_suspended_sessions : List WString → Service → Service
  resume_suspended_sessions ids s =
      if s.is_shutdown || s.is_suspended
      then s
      else publish session_changed [] (for_each (distinct ids) resume_suspended_session s)

-- Shutdown; StopAndReleaseSessions ends the sessions and drops them. What they publish while they
-- end is not heard any more.
unfoldable pub shutdown_service : Service → Service
shutdown_service s =
    let t = record s { is_shutdown = true; is_running = false; sessions = [] } in
    let u = record (publish shutdown_fact [] t) { active_subscription = 0 } in
    if s.is_shutdown then s else u

abbrev pub is_busy_state : Lifecycle → Bool
is_busy_state state =
    same_lifecycle state connecting
    || same_lifecycle state disconnecting
    || same_lifecycle state waiting_for_reconnect

-- IsDeviceConnected, IsDeviceBusy and HasBusyOperations, which read the published snapshot.
unfoldable pub is_device_connected : WString → Service → Bool
is_device_connected id s = elim (lookup id s.published.sessions) [
  | none ↦ false
  | some shown ↦ same_lifecycle shown.lifecycle connected
]

unfoldable pub is_device_busy : WString → Service → Bool
is_device_busy id s = elim (lookup id s.published.sessions) [
  | none ↦ false
  | some shown ↦ is_busy_state shown.lifecycle
]

unfoldable pub any_busy : Table Shown → Bool
any_busy [] = false
any_busy ((id, shown) ∷ t) = is_busy_state shown.lifecycle || any_busy t

abbrev pub has_busy_operations : Service → Bool
has_busy_operations s = any_busy s.published.sessions
