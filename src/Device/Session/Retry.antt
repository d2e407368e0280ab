-- ===== src/Device/Session/Retry.antt =====
-- How a session schedules its next attempt, and gives up
-- (AudioPlaybackConnector2/src/core/DeviceSession.cpp). StartConnection is reached again from these
-- operations, so they take it as the argument `start`.
use audio_playback_connector.Prelude.{
  ℕ, ◌+◌, ◌-◌, ◌*◌, Bool, true, false, not, ◌&&◌, ◌||◌, Option, none, some, ◌∷◌, ltb, leb, ◌==◌,
  if◌then◌else◌, is_some,
}
use audio_playback_connector.Device.Reconnect.{evaluate, connection_loss, is_terminal}
use audio_playback_connector.Device.Session.Data.{
  Session, Platform, Fact, OperationKind, ConnectionResult, DisconnectReason, ReconnectTimer,
  retry_timer, transient_timer, waiting_for_reconnect, failed, incoming_enable, success, failure,
  unspecified, advance, transient_open_retry_max_attempts, transient_open_retry_delay,
  close_barrier_cooldown,
}

abbrev pub Start : Type 0
Start = OperationKind → Bool → Session → Session

abbrev pub fact_of : Session → ConnectionResult → Bool → DisconnectReason → Fact
fact_of s result terminal reason = record {
  state = s.lifecycle;
  operation_epoch = s.operation_epoch;
  completed_retry_attempts = s.completed_retry_attempts;
  has_connection = is_some s.connection;
  operation = s.current_operation;
  result = result;
  is_terminal_failure = terminal;
  disconnect_reason = reason;
}

abbrev pub publish : ConnectionResult → Bool → DisconnectReason → Session → Session
publish result terminal reason s = record s { facts = fact_of s result terminal reason ∷ s.facts }

-- Publish with its default arguments.
abbrev pub publish_state : Session → Session
publish_state s = publish success false unspecified s

abbrev pub cancel_timer : Session → Session
cancel_timer s = record s { timer_epoch = advance s.timer_epoch; reconnect_timer = none }

abbrev pub revoke_state_changed : Session → Session
revoke_state_changed s = record s {
  state_changed_token = if is_some s.connection then 0 else s.state_changed_token;
}

abbrev pub is_current : ℕ → Session → Bool
is_current epoch s = not s.is_shutdown && (epoch == s.operation_epoch)

abbrev pub same_connection : Option ℕ → ℕ → Bool
same_connection none h = false
same_connection (some g) h = g == h

abbrev pub is_current_connection : ℕ → ℕ → Session → Bool
is_current_connection epoch h s = is_current epoch s && same_connection s.connection h

-- RestoreIncomingListenerAfterTerminal.
unfoldable pub restore_incoming : Start → Session → Session
restore_incoming start s =
    let t = record s { restore_incoming_after_close = false } in
    let restarted = start incoming_enable false t in
    if not s.restore_incoming_after_close && (not s.is_incoming_enabled || not s.open_immediately)
    then s
    else if not s.is_shutdown && not s.is_suspended && s.is_incoming_enabled && s.open_immediately
    then restarted
    else t

-- A terminal failure: the lifecycle, the fact, and the incoming listener.
abbrev pub fail_terminally : Start → ConnectionResult → DisconnectReason → Session → Session
fail_terminally start result reason s =
    restore_incoming start (publish result true reason (record s { lifecycle = failed }))

-- The end of ScheduleReconnect and of ScheduleTransientOpenRetry: the timer is scheduled, or the
-- attempt fails.
unfoldable pub schedule_timer :
    Platform → Start → ℕ → ReconnectTimer → ConnectionResult → DisconnectReason → Session → Session
schedule_timer p start delay timer result reason s =
    let t = record s { calls = s.calls + 1; timer_delay = delay } in
    let give_up = fail_terminally start failure reason (record t { reconnect_timer = none }) in
    if p.schedules s.calls
    then publish result false reason (record t { reconnect_timer = some timer })
    else give_up

unfoldable pub schedule_reconnect :
    Platform → Start → ConnectionResult → Bool → Bool → DisconnectReason → Session → Session
schedule_reconnect p start result should_retry completed_attempt reason s =
    let t =
      if completed_attempt
      then record s { completed_retry_attempts = advance s.completed_retry_attempts }
      else s in
    let d = evaluate record {
      request = connection_loss;
      completed_attempts = t.completed_retry_attempts;
      is_blocked = false;
    } in
    let epoch = advance t.timer_epoch in
    let refused = fail_terminally start result reason s in
    let exhausted = fail_terminally start result reason t in
    let scheduled =
      schedule_timer p start (d.delay * 1000) (retry_timer epoch t.operation_epoch) result reason
        (record t { lifecycle = waiting_for_reconnect; timer_epoch = epoch }) in
    if s.is_shutdown
      || s.is_suspended
      || not should_retry
      || not s.is_reconnect_enabled
      || s.is_reconnect_cancelled
    then refused
    else if is_terminal d.kind
    then exhausted
    else scheduled

-- The delay before the next attempt to open, less the cooldown that has passed.
unfoldable pub transient_delay : Bool → Option ℕ → ℕ
transient_delay cooled none = 0
transient_delay cooled (some d) =
    if cooled then (if ltb close_barrier_cooldown d then d - close_barrier_cooldown else 0) else d

unfoldable pub schedule_transient_open_retry :
    Platform → Start → ℕ → ConnectionResult → Bool → Session → Session
schedule_transient_open_retry p start epoch result cooled s =
    let t = record s { transient_open_retry_attempts = advance s.transient_open_retry_attempts } in
    let next = advance t.timer_epoch in
    let delay = transient_open_retry_delay t.transient_open_retry_attempts in
    let exhausted = fail_terminally start result unspecified t in
    let scheduled =
      schedule_timer p start (transient_delay cooled delay) (transient_timer next epoch) result
        unspecified
        (record t {
          lifecycle = waiting_for_reconnect;
          timer_epoch = next;
          bad_index = t.bad_index || not (is_some delay);
        }) in
    if not (is_current epoch s) || s.is_shutdown || s.is_suspended || s.is_reconnect_cancelled
    then s
    else if leb transient_open_retry_max_attempts t.transient_open_retry_attempts
    then exhausted
    else scheduled
