-- ===== src/Device/Session/Power.antt =====
-- The public operations of `DeviceSession` around power transitions and shutdown
-- (AudioPlaybackConnector2/src/core/DeviceSession.cpp), on an existing state.
use audio_playback_connector.Prelude.{Bool, true, false, not, ◌||◌, none, if◌then◌else◌, is_some}
use audio_playback_connector.Device.Session.Data.{
  Session, Platform, idle, connecting, disconnecting, waiting_for_reconnect, incoming_enable,
  resume, cancelled, unspecified, suspend, advance, same_lifecycle,
}
use audio_playback_connector.Device.Session.Retry.{
  publish, publish_state, cancel_timer, revoke_state_changed,
}
use audio_playback_connector.Device.Session.Close.{start_after_resume}
use audio_playback_connector.Device.Session.Connect.{close}
use audio_playback_connector.Device.Session.Events.{start}

abbrev pub is_busy : Session → Bool
is_busy s =
    s.is_close_in_flight
    || same_lifecycle s.lifecycle connecting
    || same_lifecycle s.lifecycle disconnecting
    || same_lifecycle s.lifecycle waiting_for_reconnect

-- Suspend, with BeginSuspendClose.
unfoldable pub suspend_session : Platform → Session → Session
suspend_session p s =
    let t = record (cancel_timer s) {
      resume_required = is_some s.connection || s.is_close_in_flight || is_busy s;
      resume_open_immediately = s.open_immediately;
      resume_operation = if s.open_immediately then resume else incoming_enable;
      is_suspended = true;
      operation_epoch = advance s.operation_epoch;
    } in
    let closing = close p t.operation_epoch suspend cancelled false false unspecified (
      revoke_state_changed (record t {
        is_suspend_close_pending = true;
        suspend_close_epoch = t.operation_epoch;
        lifecycle = disconnecting;
      })) in
    if s.is_shutdown || s.is_suspended
    then s
    else if is_some s.connection || s.is_close_in_flight
    then closing
    else publish cancelled false unspecified (record t { lifecycle = idle })

unfoldable pub resume_session : Platform → Session → Session
resume_session p s =
    let resumed = start_after_resume (start p) (record s { is_suspended = false }) in
    if s.is_shutdown || not s.is_suspended
    then s
    else if s.is_suspend_close_pending
    then record s { resume_requested = true }
    else resumed

unfoldable pub resume_idle_after_power_transition : Session → Session
resume_idle_after_power_transition s =
    if s.is_shutdown
      || not s.is_suspended
      || s.is_suspend_close_pending
      || s.resume_required
      || s.resume_requested
      || s.is_incoming_enabled
    then s
    else publish_state (record s { is_suspended = false })

unfoldable pub cancel_power_transition_recovery : Session → Session
cancel_power_transition_recovery s =
    if s.is_shutdown || not s.is_suspended
    then s
    else publish_state (record s {
      is_suspended = false;
      resume_required = false;
      resume_requested = false;
      is_suspend_close_pending = false;
    })

-- Shutdown, with CloseForShutdown.
unfoldable pub shutdown : Session → Session
shutdown s = if s.is_shutdown then s else record (revoke_state_changed (cancel_timer s)) {
  is_shutdown = true;
  operation_epoch = advance s.operation_epoch;
  close_barrier_timer = false;
  connection = none;
  closing_connection = none;
  is_close_in_flight = false;
  is_close_cooldown = false;
  is_close_continuation_abandoned = false;
  close_barrier_epoch = advance s.close_barrier_epoch;
  state_changed_token = 0;
  lifecycle = idle;
}
