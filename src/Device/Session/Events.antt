-- ===== src/Device/Session/Events.antt =====
-- The callbacks of a session: of the connection, of the close, and of the timers
-- (AudioPlaybackConnector2/src/core/DeviceSession.cpp).
use audio_playback_connector.Prelude.{
  ℕ, ◌+◌, Bool, true, false, not, ◌&&◌, ◌||◌, none, ◌==◌, if◌then◌else◌,
}
use audio_playback_connector.Device.Session.Data.{
  Session, ConnectionState, is_opened, Platform, ConnectionResult, idle, connected, disconnecting,
  waiting_for_reconnect, automatic_reconnect, incoming_enable, success, failure, timed_out,
  unspecified, unexpected_loss, advance, same_lifecycle, is_automatic, is_success,
}
use audio_playback_connector.Device.Session.Retry.{
  Start, publish, publish_state, cancel_timer, revoke_state_changed, is_current_connection,
  schedule_reconnect,
}
use audio_playback_connector.Device.Session.Close.{close_unconfirmed, continue_after_close}
use audio_playback_connector.Device.Session.Connect.{fail, begin_create, start_connection}

-- Two nested calls of StartConnection are as many as there can be: the second never opens at once,
-- and then its failure restores no listener.
abbrev pub start : Platform → Start
start p = start_connection p 2

unfoldable pub on_started : Platform → ℕ → ℕ → ConnectionResult → Session → Session
on_started p epoch h result s =
    let failing = fail p (start p) epoch result false s in
    let not_opened = fail p (start p) epoch failure false (record s { calls = s.calls + 1 }) in
    if not (is_current_connection epoch h s)
    then s
    else if same_lifecycle s.lifecycle connected
    then s
    else if not (is_success result)
    then failing
    else if not s.open_immediately
    then publish_state (record s { lifecycle = idle })
    else if p.opens s.calls
    then record s { calls = s.calls + 1 }
    else not_opened

-- The connection is up.
abbrev pub established : Session → Session
established s = publish_state (record s {
  lifecycle = connected;
  completed_retry_attempts = 0;
  retry_eligible = s.is_reconnect_enabled;
})

unfoldable pub on_opened : Platform → ℕ → ℕ → ConnectionResult → Bool → Session → Session
on_opened p epoch h result transient s =
    let failing = fail p (start p) epoch result transient s in
    if not (is_current_connection epoch h s)
    then s
    else if same_lifecycle s.lifecycle connected
    then s
    else if not (is_success result)
    then failing
    else established s

-- An established listener has lost its connection.
unfoldable pub listener_lost : Platform → Session → Session
listener_lost p s =
    let scheduled = schedule_reconnect p (start p) failure true false unexpected_loss s in
    if not s.is_reconnect_enabled
    then publish success false unexpected_loss
        (record s { lifecycle = idle; retry_eligible = false })
    else scheduled

-- The connection is given up after the platform closed it.
unfoldable pub connection_lost : Platform → Session → Session
connection_lost p s =
    let was_established = same_lifecycle s.lifecycle connected in
    let t = record (revoke_state_changed s) {
      connection = none;
      operation_epoch = advance s.operation_epoch;
    } in
    let listening = start p incoming_enable false (publish_state (record t { lifecycle = idle })) in
    let scheduled =
      schedule_reconnect p (start p) failure s.retry_eligible (is_automatic s.current_operation)
        (if was_established then unexpected_loss else unspecified) t in
    if not s.open_immediately && s.is_incoming_enabled && not was_established
    then listening
    else scheduled

unfoldable pub on_state_changed : Platform → ℕ → ℕ → ConnectionState → Session → Session
on_state_changed p epoch h state s =
    let is_incoming_listener = not s.open_immediately && s.is_incoming_enabled in
    let lost = connection_lost p s in
    let listener = listener_lost p s in
    if not (is_current_connection epoch h s) || s.is_shutdown
    then s
    else if is_opened state
    then established (cancel_timer s)
    else if same_lifecycle s.lifecycle disconnecting
    then s
    else if is_incoming_listener && same_lifecycle s.lifecycle waiting_for_reconnect
    then s
    else if same_lifecycle s.lifecycle connected && is_incoming_listener
    then listener
    else lost

-- What PostFailure posts.
unfoldable pub on_post_failed : Platform → ℕ → ℕ → Session → Session
on_post_failed p epoch h s =
    let failing = fail p (start p) epoch failure false s in
    if is_current_connection epoch h s then failing else s

abbrev pub continue : Platform → ℕ → Bool → Session → Session
continue p = continue_after_close p (start p) (begin_create p (start p))

unfoldable pub complete_close_cooldown : Platform → ℕ → Bool → Session → Session
complete_close_cooldown p barrier scheduled s =
    let continued = continue p s.operation_epoch scheduled (record s {
      close_barrier_timer = false;
      is_close_cooldown = false;
      is_close_in_flight = false;
    }) in
    if s.is_shutdown
      || not s.is_close_in_flight
      || not s.is_close_cooldown
      || not (barrier == s.close_barrier_epoch)
    then s
    else continued

unfoldable pub complete_close_barrier : Platform → ℕ → Bool → Session → Session
complete_close_barrier p barrier did_time_out s =
    let closed = record s {
      closing_connection = none;
      state_changed_token = 0;
      is_close_cooldown = true;
      close_barrier_timer = p.schedules s.calls;
      calls = s.calls + 1;
    } in
    let cooled = complete_close_cooldown p barrier false closed in
    if s.is_shutdown
      || not s.is_close_in_flight
      || s.is_close_cooldown
      || not (barrier == s.close_barrier_epoch)
    then s
    else if did_time_out
    then close_unconfirmed timed_out (record s { close_barrier_timer = false })
    else if p.schedules s.calls
    then closed
    else cooled

-- The guard of both retry timers.
abbrev pub timer_is_stale : ℕ → ℕ → Session → Bool
timer_is_stale timer operation s =
    s.is_shutdown
    || s.is_suspended
    || not (timer == s.timer_epoch)
    || not (operation == s.operation_epoch)
    || not (same_lifecycle s.lifecycle waiting_for_reconnect)

unfoldable pub on_retry_timer : Platform → ℕ → ℕ → Session → Session
on_retry_timer p timer operation s =
    let started =
      start p automatic_reconnect s.open_immediately (record s { reconnect_timer = none }) in
    if timer_is_stale timer operation s then s else started

unfoldable pub on_transient_open_retry_timer : Platform → ℕ → ℕ → Session → Session
on_transient_open_retry_timer p timer operation s =
    let created = begin_create p (start p) operation (record s { reconnect_timer = none }) in
    if timer_is_stale timer operation s then s else created
