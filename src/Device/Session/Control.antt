-- ===== src/Device/Session/Control.antt =====
-- The public operations of `DeviceSession` that connect and disconnect
-- (AudioPlaybackConnector2/src/core/DeviceSession.cpp), on an existing state.
use audio_playback_connector.Prelude.{Bool, true, false, not, ◌&&◌, ◌||◌, if◌then◌else◌, is_some}
use audio_playback_connector.Device.Session.Data.{
  Session, manual_connect, manual_reconnect, Platform, OperationKind, idle, disconnecting,
  waiting_for_reconnect, incoming_enable, success, unspecified, normal, to_idle, replace, advance,
  same_lifecycle,
}
use audio_playback_connector.Device.Session.Retry.{
  publish, publish_state, cancel_timer, revoke_state_changed,
}
use audio_playback_connector.Device.Session.Connect.{close}
use audio_playback_connector.Device.Session.Events.{start}

-- SupersedePowerTransitionRecovery.
unfoldable pub supersede_recovery : Platform → OperationKind → Bool → Session → Session
supersede_recovery p operation open_immediately s =
    let t = record s {
      is_suspended = false;
      resume_required = false;
      resume_requested = false;
      is_suspend_close_pending = false;
    } in
    let started = start p operation open_immediately t in
    let u = publish_state (record (cancel_timer t) {
      is_reconnect_cancelled = false;
      completed_retry_attempts = 0;
      transient_open_retry_attempts = 0;
      current_operation = operation;
      retry_eligible = false;
      open_immediately = open_immediately;
      operation_epoch = advance t.operation_epoch;
      lifecycle = disconnecting;
      restore_incoming_after_close = t.is_incoming_enabled && not open_immediately;
    }) in
    let closing = close p u.operation_epoch replace success false false unspecified u in
    if not s.is_close_in_flight
    then started
    else if s.is_close_continuation_abandoned
    then t
    else closing

abbrev pub is_manual : OperationKind → Bool
is_manual manual_connect = true
is_manual manual_reconnect = true
is_manual _ = false

unfoldable pub connect : Platform → OperationKind → Bool → Session → Session
connect p operation open_immediately s =
    let superseding = supersede_recovery p operation open_immediately s in
    let started = start p operation open_immediately s in
    if s.is_shutdown
    then s
    else if s.is_suspended && is_manual operation
    then superseding
    else started

-- Disconnect, with its answer.
unfoldable pub disconnect : Platform → Bool → Session → Session × Bool
disconnect p restore s =
    let t = record (cancel_timer s) {
      is_reconnect_cancelled = true;
      retry_eligible = false;
      operation_epoch = advance s.operation_epoch;
      restore_incoming_after_close = restore;
    } in
    let rested = publish success false normal (record t { lifecycle = idle }) in
    let restored =
      start p incoming_enable false (record rested { restore_incoming_after_close = false }) in
    let closing = close p t.operation_epoch to_idle success false false unspecified (
      publish success false normal
        (revoke_state_changed (record t { lifecycle = disconnecting }))) in
    if s.is_shutdown
    then (s, false)
    else if s.is_close_in_flight && s.is_close_continuation_abandoned
    then (s, false)
    else if not (is_some s.connection) && not s.is_close_in_flight
    then (
      (if restore && s.is_incoming_enabled && not s.is_suspended then restored else rested),
      true,
    )
    else (closing, true)

unfoldable pub set_incoming_enabled : Platform → Bool → Session → Session
set_incoming_enabled p enabled s =
    let t = record s { is_incoming_enabled = enabled } in
    let (dropped, _) = disconnect p false t in
    let started = start p incoming_enable false t in
    let has_incoming_lifecycle =
      not s.open_immediately
      && (is_some s.connection
          || s.is_close_in_flight
          || same_lifecycle s.lifecycle waiting_for_reconnect) in
    if s.is_shutdown
    then s
    else if not enabled && has_incoming_lifecycle
    then dropped
    else if enabled && not (is_some s.connection) && not s.is_suspended
    then started
    else publish_state t

-- Rename; the name itself is not part of the state.
unfoldable pub rename : Session → Session
rename s = if s.is_shutdown then s else publish_state s
