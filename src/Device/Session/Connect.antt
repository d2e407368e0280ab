-- ===== src/Device/Session/Connect.antt =====
-- How a session creates a connection: StartConnection and BeginCreate
-- (AudioPlaybackConnector2/src/core/DeviceSession.cpp).
use audio_playback_connector.Prelude.{
  ℕ, zero, suc, ◌+◌, Bool, true, false, not, ◌&&◌, ◌||◌, none, some, ◌==◌, if◌then◌else◌, is_some,
}
use audio_playback_connector.Device.Session.Data.{
  Session, Platform, OperationKind, ConnectionResult, DisconnectReason, CloseContinuation,
  connecting, disconnecting, success, failure, unspecified, normal, replace, retry,
  transient_open_retry, advance, same_lifecycle, is_automatic, keeps_attempts, starts_eligible,
}
use audio_playback_connector.Device.Session.Retry.{
  Start, publish, publish_state, cancel_timer, revoke_state_changed, is_current, schedule_reconnect,
  schedule_transient_open_retry,
}
use audio_playback_connector.Device.Session.Close.{begin_close}

-- CompleteFailure; `close` is BeginClose.
unfoldable pub complete_failure :
    Platform
    → Start
    → (CloseContinuation → ConnectionResult → Bool → Bool → DisconnectReason → Session → Session)
    → ℕ
    → ConnectionResult
    → Bool
    → Session
    → Session
complete_failure p start close epoch result transient s =
    let again = transient && s.open_immediately in
    let t = revoke_state_changed s in
    let reopened = schedule_transient_open_retry p start epoch result false t in
    let retried =
      schedule_reconnect p start result s.retry_eligible (is_automatic s.current_operation)
        unspecified t in
    let closing =
      close (if again then transient_open_retry else retry) result s.retry_eligible
        (is_automatic s.current_operation) unspecified
        (publish result false unspecified (record t { lifecycle = disconnecting })) in
    if not (is_current epoch s)
    then s
    else if not (is_some s.connection)
    then (if again then reopened else retried)
    else closing

-- The branch of BeginClose for a session with nothing to close is not reached from the operations
-- below, which all close a connection or find a close in flight; a session that got there is marked.
abbrev pub unreached : ℕ → Bool → Session → Session
unreached epoch cooled s = record s { starved = true }

abbrev pub close :
    Platform
    → ℕ
    → CloseContinuation
    → ConnectionResult
    → Bool
    → Bool
    → DisconnectReason
    → Session
    → Session
close p epoch = begin_close p unreached epoch

abbrev pub fail : Platform → Start → ℕ → ConnectionResult → Bool → Session → Session
fail p start epoch = complete_failure p start (close p epoch) epoch

-- The part of BeginCreate that has a new connection, numbered by the call that created it.
unfoldable pub start_created : Platform → Start → ℕ → Session → Session
start_created p start epoch s =
    let t = record s {
      state_changed_token = elim (p.registers s.calls) [
        | some token ↦ token
        | none ↦ s.state_changed_token
      ];
    } in
    let broken = fail p start epoch failure false t in
    if elim (p.registers s.calls) [
      | some token ↦ not (token == 0) && p.starts s.calls
      | none ↦ false
    ]
    then t
    else broken

unfoldable pub begin_create : Platform → Start → ℕ → Session → Session
begin_create p start epoch s =
    let t = publish_state (record s { lifecycle = connecting }) in
    let n = t.calls in
    let u = record t {
      calls = n + 1;
      overlap = t.overlap || is_some t.connection || t.is_close_in_flight;
    } in
    let created = start_created p start epoch (record u { connection = some n }) in
    let missed = fail p start epoch failure false (record u { connection = none }) in
    if not (is_current epoch s) || s.is_shutdown || s.is_suspended
    then s
    else if p.creates n
    then created
    else missed

-- The fields that StartConnection sets before it closes or creates.
abbrev pub prepared : OperationKind → Bool → Session → Session
prepared operation open_immediately s =
    let t = cancel_timer (record s {
      is_reconnect_cancelled = if keeps_attempts operation then s.is_reconnect_cancelled else false;
      completed_retry_attempts = if keeps_attempts operation then s.completed_retry_attempts else 0;
      transient_open_retry_attempts = 0;
    }) in
    record t {
      current_operation = operation;
      retry_eligible = starts_eligible operation;
      open_immediately = open_immediately;
      operation_epoch = advance s.operation_epoch;
    }

-- The branch of StartConnection that replaces a connection.
abbrev pub replacing : Session → Session
replacing s = publish success false normal (
    revoke_state_changed (record s {
      lifecycle = disconnecting;
      restore_incoming_after_close = s.is_incoming_enabled && not s.open_immediately;
    }))

unfoldable pub start_body : Platform → Start → Start
start_body p start operation open_immediately s =
    let t = prepared operation open_immediately s in
    let created = begin_create p start t.operation_epoch t in
    let closing = close p t.operation_epoch replace success false false unspecified (replacing t) in
    if s.is_shutdown || s.is_suspended || not s.has_device_id
    then s
    else if s.is_close_in_flight
        || same_lifecycle s.lifecycle connecting
        || same_lifecycle s.lifecycle disconnecting
    then s
    else if is_some s.connection
    then closing
    else created

-- StartConnection, with as many nested calls as the fuel says.
unfoldable pub start_connection : Platform → ℕ → Start
start_connection p zero operation open_immediately s = record s { starved = true }
start_connection p (suc fuel) operation open_immediately s =
    start_body p (start_connection p fuel) operation open_immediately s
