-- ===== src/Device/Service/Commands.antt =====
-- The commands of `DeviceService` (AudioPlaybackConnector2/src/core/DeviceService.cpp): the task of
-- each, with its result. An empty identifier is refused before the task.
use audio_playback_connector.Prelude.{
  ℕ, Bool, true, false, not, ◌&&◌, ◌||◌, Option, none, some, [], ◌∷◌, ◌++◌, if◌then◌else◌, is_some,
  ◌==◌, length,
}
use audio_playback_connector.Text.Table.{lookup, remove}
use audio_playback_connector.Text.Utf16.{WString}
use audio_playback_connector.Device.Session.Data.{
  Session, connected, disconnecting, OperationKind, manual_connect, manual_reconnect, Platform,
  same_lifecycle, fresh_session,
}
use audio_playback_connector.Device.Session.Policy.{cancel_reconnect}
use audio_playback_connector.Device.Session.Control.{connect, disconnect}
use audio_playback_connector.Device.Session.Power.{is_busy}
use audio_playback_connector.Device.Service.Data.{
  Service, CommandKind, connect_command, disconnect_command, reconnect_command, disconnect_all,
  reconnect_all, start_command, stop_command, ResultKind, accepted, coalesced, rejected, withdrawn,
  CommandResult, Completion, inventory_changed, OperationStatus, op_cancelled, op_timed_out,
}
use audio_playback_connector.Device.Service.Publish.{
  show_all, settle, publish, act, for_each_session, get_or_create_session,
}

abbrev pub epoch_of : Option Session → ℕ
epoch_of none = 0
epoch_of (some s) = s.operation_epoch

abbrev pub waits : CommandKind → Bool
waits connect_command = true
waits reconnect_command = true
waits _ = false

abbrev pub takes_effect : ResultKind → Bool
takes_effect accepted = true
takes_effect coalesced = true
takes_effect _ = false

abbrev pub is_accepted : ResultKind → Bool
is_accepted accepted = true
is_accepted _ = false

-- `Result`, which starts a completion for the commands that connect.
unfoldable pub result_of : CommandKind → ResultKind → WString → Service → Service × CommandResult
result_of command kind id s =
    let epoch = epoch_of (lookup id s.sessions) in
    let started : Completion = record {
      device_id = id;
      epoch = epoch;
      owns_cancellation = is_accepted kind;
      status = none;
      pending = true;
    } in
    let waited : Service = record s {
      completions = s.completions ++ settle s.is_shutdown (show_all s.sessions) started ∷ [];
    } in
    if waits command && takes_effect kind
    then (
      waited,
      record {
        command = command;
        kind = kind;
        device_id = id;
        operation_epoch = epoch;
        completion = some (length s.completions);
      },
    )
    else (
      s,
      record {
        command = command;
        kind = kind;
        device_id = id;
        operation_epoch = epoch;
        completion = none;
      },
    )

-- The session that GetOrCreateSession returned.
abbrev pub session_of : WString → Service → Session
session_of id s = elim (lookup id s.sessions) [ none ↦ fresh_session | some t ↦ t ]

-- The session still disconnects, and does not just wait for the power to come back.
abbrev pub is_still_closing : Session → Bool
is_still_closing s = is_busy s && same_lifecycle s.lifecycle disconnecting && not s.is_suspended

module _ (platform : WString → Platform) where
  -- The part that Connect and Reconnect share: the epoch tells whether an operation was started.
  unfoldable pub start_operation :
      CommandKind → OperationKind → WString → Service → Service × CommandResult
  start_operation command operation id s =
      let before = epoch_of (lookup id s.sessions) in
      let t = act id (connect (platform id) operation true) s in
      result_of command (if epoch_of (lookup id t.sessions) == before then coalesced else accepted)
        id t

  unfoldable pub connect_device : WString → Service → Service × CommandResult
  connect_device id s =
      let t = get_or_create_session platform id s in
      let session = session_of id t in
      let u = record t { recovery_epochs = remove id t.recovery_epochs } in
      if s.is_shutdown || s.is_suspended
      then result_of connect_command rejected id s
      else if is_still_closing session
      then result_of connect_command rejected id u
      else if same_lifecycle session.lifecycle connected
      then result_of connect_command coalesced id u
      else start_operation connect_command manual_connect id u

  unfoldable pub reconnect_device : WString → Service → Service × CommandResult
  reconnect_device id s =
      let t = get_or_create_session platform id s in
      let session = session_of id t in
      let u = record t { recovery_epochs = remove id t.recovery_epochs } in
      if s.is_shutdown || s.is_suspended
      then result_of reconnect_command rejected id s
      else if is_still_closing session
      then result_of reconnect_command rejected id u
      else start_operation reconnect_command manual_reconnect id u

  unfoldable pub disconnect_device : WString → Service → Service × CommandResult
  disconnect_device id s =
      let t = get_or_create_session platform id s in
      let answer = (disconnect (platform id) t.is_incoming_enabled (session_of id t)).1 in
      let u = act id (λ session. (disconnect (platform id) t.is_incoming_enabled session).0) t in
      if s.is_shutdown || s.is_suspended
      then result_of disconnect_command rejected id s
      else result_of disconnect_command (if answer then accepted else coalesced) id u

  unfoldable pub cancel_reconnect_device : WString → Service → Service × CommandResult
  cancel_reconnect_device id s =
      if s.is_shutdown
      then result_of reconnect_command rejected id s
      else if is_some (lookup id s.sessions)
      then result_of reconnect_command withdrawn id (act id (cancel_reconnect (platform id)) s)
      else result_of reconnect_command coalesced id s

  unfoldable pub cancel_pending_reconnects : Service → Service × CommandResult
  cancel_pending_reconnects s =
      let t = for_each_session (λ id. act id (cancel_reconnect (platform id))) s in
      if s.is_shutdown
      then result_of reconnect_all rejected [] s
      else result_of reconnect_all withdrawn [] t

  unfoldable pub disconnect_all_devices : Service → Service × CommandResult
  disconnect_all_devices s =
      let t =
        for_each_session
          (λ id. act id (λ session. (disconnect (platform id) s.is_incoming_enabled session).0))
          s in
      if s.is_shutdown || s.is_suspended
      then result_of disconnect_all rejected [] s
      else result_of disconnect_all accepted [] t

  -- The body of ReconnectAll's loop.
  unfoldable pub reconnect_connected : WString → Service → Service
  reconnect_connected id s =
      if same_lifecycle (session_of id s).lifecycle connected
      then act id (connect (platform id) manual_reconnect true) s
      else s

  unfoldable pub reconnect_all_devices : Service → Service × CommandResult
  reconnect_all_devices s =
      if s.is_shutdown || s.is_suspended
      then result_of reconnect_all rejected [] s
      else result_of reconnect_all accepted [] (for_each_session reconnect_connected s)

  -- CancelOperation.
  unfoldable pub cancel_operation : WString → ℕ → Service → Service
  cancel_operation id epoch s =
      let t = act id (cancel_reconnect (platform id)) s in
      let u = act id (λ session. (disconnect (platform id) t.is_incoming_enabled session).0) t in
      if s.is_shutdown || not (is_some (lookup id s.sessions))
      then s
      else if epoch_of (lookup id s.sessions) == epoch
      then u
      else s

  -- The task that a wait posts when it gives up, for a completion that owns its cancellation.
  unfoldable pub give_up : Completion → Service → Service
  give_up c s = if is_some c.status then s else cancel_operation c.device_id c.epoch s

-- What WaitForCompletion returns when it wakes, for a completion of this service.
unfoldable pub wait_outcome : Bool → Completion → OperationStatus
wait_outcome stop_requested c = elim c.status [
  | none ↦ if stop_requested then op_cancelled else op_timed_out
  | some status ↦ status
]

-- Start and Stop, with the watcher's answer to Start.
unfoldable pub start_service : Bool → Service → Service × CommandResult
start_service watcher_started s =
    let t = record s { is_running = watcher_started } in
    let (u, answer) =
      result_of start_command (if watcher_started then accepted else rejected) [] t in
    if s.is_shutdown
    then result_of start_command rejected [] s
    else if s.is_running
    then result_of start_command coalesced [] s
    else (publish inventory_changed [] u, answer)

unfoldable pub stop_service : Service → Service × CommandResult
stop_service s =
    let (u, answer) = result_of stop_command accepted [] (record s { is_running = false }) in
    if s.is_shutdown
    then result_of stop_command rejected [] s
    else if not s.is_running
    then result_of stop_command coalesced [] s
    else (publish inventory_changed [] u, answer)
