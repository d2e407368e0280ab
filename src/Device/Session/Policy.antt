-- ===== src/Device/Session/Policy.antt =====
-- The public operations of `DeviceSession` that stop or allow reconnecting
-- (AudioPlaybackConnector2/src/core/DeviceSession.cpp), on an existing state.
use audio_playback_connector.Prelude.{Bool, true, false, not, ◌&&◌, ◌||◌, if◌then◌else◌, is_some}
use audio_playback_connector.Device.Session.Data.{
  Session, Platform, idle, connecting, disconnecting, waiting_for_reconnect, incoming_enable,
  success, failure, cancelled, unspecified, device_removed, to_idle, retry, advance, same_lifecycle,
  is_automatic,
}
use audio_playback_connector.Device.Session.Retry.{
  publish, publish_state, cancel_timer, revoke_state_changed, schedule_reconnect,
}
use audio_playback_connector.Device.Session.Connect.{close}
use audio_playback_connector.Device.Session.Events.{start}

unfoldable pub cancel_automatic_reconnect : Platform → Bool → Session → Session
cancel_automatic_reconnect p restore s =
    let t = record (cancel_timer s) { retry_eligible = false } in
    let u = record t { operation_epoch = advance t.operation_epoch } in
    let closing = close p u.operation_epoch to_idle cancelled false false unspecified (
      revoke_state_changed (record u {
        lifecycle = disconnecting;
        restore_incoming_after_close = restore && s.is_incoming_enabled;
      })) in
    let v = publish cancelled false unspecified (record u { lifecycle = idle }) in
    let restored = start p incoming_enable false v in
    if not (
      same_lifecycle s.lifecycle waiting_for_reconnect
      || (same_lifecycle s.lifecycle connecting && is_automatic s.current_operation)
      || (same_lifecycle s.lifecycle disconnecting && is_automatic s.current_operation))
    then publish cancelled false unspecified t
    else if is_some s.connection || s.is_close_in_flight
    then closing
    else if restore && s.is_incoming_enabled
    then restored
    else v

unfoldable pub cancel_reconnect : Platform → Session → Session
cancel_reconnect p s =
    let cancelling =
      cancel_automatic_reconnect p s.is_incoming_enabled
        (record s { is_reconnect_cancelled = true }) in
    if s.is_shutdown then s else cancelling

unfoldable pub set_reconnect_enabled : Platform → Bool → Session → Session
set_reconnect_enabled p enabled s =
    let t = record s { is_reconnect_enabled = enabled } in
    let cancelling = cancel_automatic_reconnect p s.is_incoming_enabled t in
    if s.is_shutdown
    then s
    else if not enabled
        && (same_lifecycle s.lifecycle waiting_for_reconnect
            || ((same_lifecycle s.lifecycle connecting || same_lifecycle s.lifecycle disconnecting)
                && is_automatic s.current_operation))
    then cancelling
    else publish_state t

unfoldable pub handle_device_removed : Platform → Session → Session
handle_device_removed p s =
    let t = record (cancel_timer s) { restore_incoming_after_close = false } in
    let u = record t { operation_epoch = advance t.operation_epoch } in
    let closing_listener =
      close p u.operation_epoch to_idle success false false unspecified
        (publish_state (revoke_state_changed (record u { lifecycle = disconnecting }))) in
    let closing = close p u.operation_epoch retry failure s.retry_eligible false device_removed (
      publish failure false device_removed
        (revoke_state_changed (record u { lifecycle = disconnecting }))) in
    let busy =
      close p u.operation_epoch retry failure s.retry_eligible false device_removed
        (publish failure false device_removed (record u { lifecycle = disconnecting })) in
    let scheduled =
      schedule_reconnect p (start p) failure s.retry_eligible false device_removed u in
    if s.is_shutdown
    then s
    else if not (is_some s.connection)
        && not s.is_close_in_flight
        && same_lifecycle s.lifecycle idle
        && not s.retry_eligible
    then publish_state t
    else if is_some s.connection
        && same_lifecycle s.lifecycle idle
        && s.is_incoming_enabled
        && not s.retry_eligible
    then closing_listener
    else if s.is_close_in_flight
    then busy
    else if not (is_some s.connection)
    then scheduled
    else closing
