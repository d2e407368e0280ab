-- ===== src/Device/Session/Close.antt =====
-- How a session closes its connection and goes on after that
-- (AudioPlaybackConnector2/src/core/DeviceSession.cpp).
use audio_playback_connector.Prelude.{
  ℕ, ◌+◌, Bool, true, false, not, ◌&&◌, ◌||◌, none, ◌==◌, if◌then◌else◌, is_some,
}
use audio_playback_connector.Device.Session.Data.{
  Session, Platform, ConnectionResult, DisconnectReason, CloseContinuation, idle, failed,
  incoming_enable, success, failure, cancelled, unspecified, to_idle, replace, retry,
  transient_open_retry, suspend, advance,
}
use audio_playback_connector.Device.Session.Retry.{
  Start, publish, publish_state, revoke_state_changed, is_current, restore_incoming,
  schedule_reconnect, schedule_transient_open_retry,
}

abbrev pub no_continuation : Session → Session
no_continuation s = record s {
  pending_close_continuation = to_idle;
  pending_close_failure = success;
  pending_close_retry_eligible = false;
  pending_close_completed_attempt = false;
  pending_close_disconnect_reason = unspecified;
}

-- AbandonCloseContinuation.
abbrev pub abandon_close_continuation : Session → Session
abandon_close_continuation s = record (no_continuation s) { is_close_continuation_abandoned = true }

-- A close that cannot be confirmed in time ends the operation, and keeps the barrier.
abbrev pub close_unconfirmed : ConnectionResult → Session → Session
close_unconfirmed result s =
    abandon_close_continuation
      (publish result true s.pending_close_disconnect_reason (record s { lifecycle = failed }))

-- The part of BeginClose that hands the connection over to the close, under a barrier timer.
unfoldable pub close_connection : Platform → Session → Session
close_connection p s =
    let r = revoke_state_changed s in
    let t = record r {
      closing_connection = s.connection;
      connection = none;
      is_close_in_flight = true;
      close_barrier_epoch = advance s.close_barrier_epoch;
      close_barrier_timer = p.schedules s.calls;
      calls = s.calls + 1;
    } in
    if p.schedules s.calls then t else close_unconfirmed failure t

-- StartAfterResume.
unfoldable pub start_after_resume : Start → Session → Session
start_after_resume start s =
    let required =
      start s.resume_operation s.resume_open_immediately (record s { resume_required = false }) in
    let incoming = start incoming_enable false s in
    if s.resume_required
    then required
    else if s.is_incoming_enabled
    then incoming
    else publish_state s

unfoldable pub complete_suspend_close : Start → ℕ → Session → Session
complete_suspend_close start epoch s =
    let t = publish cancelled false unspecified (record s {
      connection = none;
      state_changed_token = 0;
      is_suspend_close_pending = false;
      lifecycle = idle;
    }) in
    let resumed =
      start_after_resume start (record t { resume_requested = false; is_suspended = false }) in
    if s.is_shutdown
      || not s.is_suspended
      || not s.is_suspend_close_pending
      || not (s.suspend_close_epoch == epoch)
      || not (s.operation_epoch == epoch)
    then s
    else if not s.resume_requested
    then t
    else resumed

-- The abandoned branch of ContinueAfterClose.
unfoldable pub continue_abandoned : Start → Session → Session
continue_abandoned start s =
    let t = record s { is_close_continuation_abandoned = false } in
    let u =
      if s.is_suspend_close_pending
      then record t {
        is_suspend_close_pending = false;
        resume_required = false;
        resume_requested = false;
        is_suspended = if s.resume_requested then false else s.is_suspended;
      }
      else t in
    restore_incoming start (publish_state (record u { lifecycle = idle }))

-- The last branch of ContinueAfterClose.
unfoldable pub continue_idle : Start → ConnectionResult → DisconnectReason → Session → Session
continue_idle start result reason s =
    let t = publish result false reason (record s { lifecycle = idle }) in
    let restored =
      start incoming_enable false (record t { restore_incoming_after_close = false }) in
    if s.restore_incoming_after_close && s.is_incoming_enabled && not s.is_suspended
    then restored
    else t

-- ContinueAfterClose; `create` is BeginCreate.
unfoldable pub continue_after_close :
    Platform → Start → (ℕ → Session → Session) → ℕ → Bool → Session → Session
continue_after_close p start create epoch cooled s =
    let t = no_continuation s in
    let replaced = create epoch t in
    let retried =
      schedule_reconnect p start s.pending_close_failure s.pending_close_retry_eligible
        s.pending_close_completed_attempt s.pending_close_disconnect_reason t in
    let reopened = schedule_transient_open_retry p start epoch s.pending_close_failure cooled t in
    let suspended = complete_suspend_close start epoch t in
    let rested = continue_idle start s.pending_close_failure s.pending_close_disconnect_reason t in
    if not (is_current epoch s) || s.is_shutdown
    then s
    else if s.is_close_continuation_abandoned
    then continue_abandoned start t
    else elim s.pending_close_continuation [
      | replace ↦ replaced
      | retry ↦ retried
      | transient_open_retry ↦ reopened
      | suspend ↦ suspended
      | to_idle ↦ rested
    ]

-- BeginClose; `continue` is ContinueAfterClose, for a session with nothing to close.
unfoldable pub begin_close :
    Platform
    → (ℕ → Bool → Session → Session)
    → ℕ
    → CloseContinuation
    → ConnectionResult
    → Bool
    → Bool
    → DisconnectReason
    → Session
    → Session
begin_close p continue epoch continuation result should_retry completed_attempt reason s =
    let t = record s {
      pending_close_continuation = continuation;
      pending_close_failure = result;
      pending_close_retry_eligible = should_retry;
      pending_close_completed_attempt = completed_attempt;
      pending_close_disconnect_reason = reason;
      is_close_continuation_abandoned = false;
    } in
    let continued = continue epoch false t in
    let closing = close_connection p t in
    if s.is_close_in_flight && s.is_close_continuation_abandoned
    then s
    else if s.is_close_in_flight
    then t
    else if not (is_some s.connection)
    then continued
    else closing
