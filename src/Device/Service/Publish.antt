-- ===== src/Device/Service/Publish.antt =====
-- What a service publishes, and how it resolves the operations that are waited for
-- (AudioPlaybackConnector2/src/core/DeviceService.cpp).
use audio_playback_connector.Prelude.{
  ℕ, ◌-◌, Bool, true, false, not, ◌||◌, Option, none, some, List, [], ◌∷◌, map, if◌then◌else◌,
  is_some, ◌==◌, length, take,
}
use audio_playback_connector.Text.{is_empty, contains}
use audio_playback_connector.Text.Table.{Table, lookup, put, keys}
use audio_playback_connector.Text.Utf16.{WString}
use audio_playback_connector.Device.Session.Data.{
  Session, Fact, idle, connected, failed, OperationKind, manual_connect, ConnectionResult, success,
  timed_out, denied, failure, DisconnectReason, unspecified, unexpected_loss, device_removed,
  advance, same_lifecycle, fresh_session, Platform,
}
use audio_playback_connector.Device.Session.Policy.{set_reconnect_enabled}
use audio_playback_connector.Device.Session.Control.{set_incoming_enabled}
use audio_playback_connector.Device.Service.Data.{
  Service, Shown, Completion, FactKind, session_changed, operation_failed, OperationStatus,
  op_cancelled, op_succeeded, op_failed,
}

abbrev pub show : Session → Shown
show s = record { lifecycle = s.lifecycle; operation_epoch = s.operation_epoch }

unfoldable pub show_all : Table Session → Table Shown
show_all [] = []
show_all ((id, s) ∷ t) = (id, show s) ∷ show_all t

-- What ResolveOperation finds of a session that exists: a terminal status, or none yet.
abbrev pub verdict : Shown → ℕ → Option OperationStatus
verdict s epoch =
    if not (s.operation_epoch == epoch) || same_lifecycle s.lifecycle idle
    then some op_cancelled
    else if same_lifecycle s.lifecycle connected
    then some op_succeeded
    else if same_lifecycle s.lifecycle failed
    then some op_failed
    else none

-- ResolveOperation, with the sessions as their snapshots show them.
unfoldable pub resolve_operation : Bool → Table Shown → Completion → Option OperationStatus
resolve_operation is_shutdown sessions c =
    if is_shutdown then some op_cancelled else elim (lookup c.device_id sessions) [
      | none ↦ some op_cancelled
      | some s ↦ verdict s c.epoch
    ]

-- DeviceOperationCompletion::Resolve: the first status stays.
unfoldable pub resolve : OperationStatus → Completion → Completion
resolve status c = if is_some c.status then c else record c { status = some status }

-- One step of the `erase_if` on the pending operations.
unfoldable pub settle : Bool → Table Shown → Completion → Completion
settle is_shutdown sessions c =
    let settled : Completion = elim (resolve_operation is_shutdown sessions c) [
      | none ↦ c
      | some status ↦ record (resolve status c) { pending = false }
    ] in
    if c.pending then settled else c

-- UpdatePublishedSnapshot.
unfoldable pub update_published_snapshot : Table Shown → Service → Service
update_published_snapshot shown s = record s {
  published = record {
    generation = s.generation;
    is_running = s.is_running;
    is_suspended = s.is_suspended;
    is_shutdown = s.is_shutdown;
    sessions = shown;
  };
  completions = map (settle s.is_shutdown shown) s.completions;
}

-- Publish, with the sessions as they are at that moment.
unfoldable pub publish_shown :
    Table Shown
    → FactKind
    → WString
    → ConnectionResult
    → Bool
    → OperationKind
    → DisconnectReason
    → Service
    → Service
publish_shown shown kind id result terminal operation cause s =
    let t = update_published_snapshot shown (record s { generation = advance s.generation }) in
    let told = record t {
      facts =
          record {
            kind = kind;
            generation = t.generation;
            device_id = id;
            result = result;
            operation = operation;
            is_terminal_failure = terminal;
            disconnect_reason = cause;
          }
          ∷ t.facts;
    } in
    if t.active_subscription == 0 then t else told

-- Publish outside of a session's operation.
unfoldable pub publish : FactKind → WString → Service → Service
publish kind id s =
    publish_shown (show_all s.sessions) kind id success false manual_connect unspecified s

abbrev pub is_failure : ConnectionResult → Bool
is_failure timed_out = true
is_failure denied = true
is_failure failure = true
is_failure _ = false

abbrev pub is_exceptional : DisconnectReason → Bool
is_exceptional unexpected_loss = true
is_exceptional device_removed = true
is_exceptional _ = false

-- OnSessionFact. The session that publishes is in the middle of its operation: its snapshot is the
-- fact's.
unfoldable pub on_session_fact : WString → Fact → Service → Service
on_session_fact id f s =
    let shown : Table Shown =
      put id (record { lifecycle = f.state; operation_epoch = f.operation_epoch })
        (show_all s.sessions) in
    let told =
      publish_shown shown
        (if is_exceptional f.disconnect_reason || not (is_failure f.result)
          then session_changed
          else operation_failed)
        id f.result f.is_terminal_failure f.operation f.disconnect_reason s in
    if s.is_shutdown then s else told

-- The facts of a session's operation, oldest first, reach the service while the operation runs.
unfoldable pub deliver : WString → List Fact → Service → Service
deliver id [] s = s
deliver id (f ∷ fs) s = on_session_fact id f (deliver id fs s)

-- The facts that an operation added to the session's, newest first.
abbrev pub new_facts : Session → Session → List Fact
new_facts old new = take (length new.facts - length old.facts) new.facts

-- An operation or a callback takes a session from `old` to `new`.
unfoldable pub change_session : WString → Session → Session → Service → Service
change_session id old new s =
    deliver id (new_facts old new) (record s { sessions = put id new s.sessions })

-- A call of an operation on the session of a device.
unfoldable pub act : WString → (Session → Session) → Service → Service
act id operation s = elim (lookup id s.sessions) [
  | none ↦ s
  | some old ↦ change_session id old (operation old) s
]

-- A loop.
unfoldable pub for_each : List WString → (WString → Service → Service) → Service → Service
for_each [] body s = s
for_each (id ∷ ids) body s = for_each ids body (body id s)

-- The loops over `Sessions`.
abbrev pub for_each_session : (WString → Service → Service) → Service → Service
for_each_session body s = for_each (keys s.sessions) body s

module _ (platform : WString → Platform) where
  -- A new session of GetOrCreateSession.
  unfoldable pub create_session : WString → Service → Service
  create_session id s =
      let created = record s { sessions = put id fresh_session s.sessions } in
      let enabled =
        act id
          (set_reconnect_enabled (platform id)
            (s.is_global_reconnect_enabled || contains s.individually_reconnect_enabled id))
          created in
      let incoming = act id (set_incoming_enabled (platform id) true) enabled in
      if s.is_incoming_enabled then incoming else enabled

  -- GetOrCreateSession.
  unfoldable pub get_or_create_session : WString → Service → Service
  get_or_create_session id s =
      let created = create_session id s in
      if is_empty id || s.is_shutdown
      then s
      else if is_some (lookup id s.sessions)
      then s
      else created
