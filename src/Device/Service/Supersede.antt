-- ===== src/Device/Service/Supersede.antt =====
-- A user's command and the recovery after a power transition: Connect, Reconnect and
-- ResumeSuspendedSessions of `DeviceService` (AudioPlaybackConnector2/src/core/DeviceService.cpp).
use audio_playback_connector.Prelude.{
  ℕ, ◌≡◌, ap, ◌∙◌, refl, Bool, true, false, ◌&&◌, ◌||◌, none, List, [], ◌∷◌, Bool-cases,
  Option-cases, inl, inr, if◌then◌else◌, ◌==◌,
}
use audio_playback_connector.Text.{is_empty}
use audio_playback_connector.Text.Table.{Table, lookup, remove, lookup-remove}
use audio_playback_connector.Text.Utf16.{WString}
use audio_playback_connector.Device.Session.Data.{
  Session, Platform, Fact, OperationKind, connected, same_lifecycle, ConnectionResult,
  DisconnectReason,
}
use audio_playback_connector.Device.Service.Data.{
  Service, Shown, CommandKind, ResultKind, CommandResult, FactKind,
}
use audio_playback_connector.Device.Service.Publish.{
  publish_shown, update_published_snapshot, on_session_fact, deliver, change_session, act,
  get_or_create_session,
}
use audio_playback_connector.Device.Service.Commands.{
  is_still_closing, session_of, waits, takes_effect, result_of, start_operation, connect_device,
  reconnect_device,
}
use audio_playback_connector.Device.Service.Power.{resume_suspended_session}

-- A service with the recovery epochs `r`.
record HasEpochs (r : Table ℕ) (s : Service) : Type 0 where
  same_epochs : s.recovery_epochs ≡ r

if-HasEpochs :
    {r : Table ℕ} (b : Bool) (x y : Service)
    → HasEpochs r x
    → HasEpochs r y
    → HasEpochs r (if b then x else y)
if-HasEpochs true x y f g = f
if-HasEpochs false x y f g = g

-- Publishing and the sessions' operations leave the recovery epochs alone.
publish_shown-HasEpochs :
    {r : Table ℕ} (shown : Table Shown) (kind : FactKind) (id : WString) (c : ConnectionResult)
    (b : Bool) (o : OperationKind) (d : DisconnectReason) (s : Service)
    → HasEpochs r s
    → HasEpochs r (publish_shown shown kind id c b o d s)
unfolding publish_shown update_published_snapshot
publish_shown-HasEpochs shown kind id c b o d s h =
    if-HasEpochs (s.active_subscription == 0) _ _ (record { same_epochs = h.same_epochs })
      (record { same_epochs = h.same_epochs })

on_session_fact-HasEpochs :
    {r : Table ℕ} (id : WString) (f : Fact) (s : Service)
    → HasEpochs r s
    → HasEpochs r (on_session_fact id f s)
unfolding on_session_fact
on_session_fact-HasEpochs id f s h =
    if-HasEpochs s.is_shutdown _ _ h (publish_shown-HasEpochs _ _ _ _ _ _ _ s h)

deliver-HasEpochs :
    {r : Table ℕ} (id : WString) (fs : List Fact) (s : Service)
    → HasEpochs r s
    → HasEpochs r (deliver id fs s)
unfolding deliver
deliver-HasEpochs id [] s h = h
deliver-HasEpochs id (f ∷ fs) s h = on_session_fact-HasEpochs id f _ (deliver-HasEpochs id fs s h)

act-HasEpochs :
    {r : Table ℕ} (id : WString) (f : Session → Session) (s : Service)
    → HasEpochs r s
    → HasEpochs r (act id f s)
unfolding act change_session
act-HasEpochs id f s h = elim (Option-cases (lookup id s.sessions)) [
  | inl e ↦ rw (e, act) h
  | inr (old, e) ↦ rw (e, act) (deliver-HasEpochs id _ _ (record { same_epochs = h.same_epochs }))
]

-- A task with an answer.
record RepliesEpochs (r : Table ℕ) (a : Service × CommandResult) : Type 0 where
  then_epochs : HasEpochs r a.0

if-RepliesEpochs :
    {r : Table ℕ} (b : Bool) (x y : Service × CommandResult)
    → RepliesEpochs r x
    → RepliesEpochs r y
    → RepliesEpochs r (if b then x else y)
if-RepliesEpochs true x y f g = f
if-RepliesEpochs false x y f g = g

result_of-RepliesEpochs :
    {r : Table ℕ} (c : CommandKind) (k : ResultKind) (id : WString) (s : Service)
    → HasEpochs r s
    → RepliesEpochs r (result_of c k id s)
unfolding result_of
result_of-RepliesEpochs c k id s h =
    if-RepliesEpochs (waits c && takes_effect k) _ _
      (record { then_epochs = record { same_epochs = h.same_epochs } }) (record { then_epochs = h })

start_operation-RepliesEpochs :
    {r : Table ℕ} (v : WString → Platform) (c : CommandKind) (o : OperationKind) (id : WString)
    (s : Service)
    → HasEpochs r s
    → RepliesEpochs r (start_operation v c o id s)
unfolding start_operation
start_operation-RepliesEpochs v c o id s h =
    result_of-RepliesEpochs c _ id _ (act-HasEpochs id _ s h)

module _ (v : WString → Platform) (id : WString) (s : Service) where
  abbrev prepared : Service
  prepared =
      let t = get_or_create_session v id s in
      record t { recovery_epochs = remove id t.recovery_epochs }

  connect_device-RepliesEpochs :
      (s.is_shutdown || s.is_suspended) ≡ false
      → RepliesEpochs (prepared).recovery_epochs (connect_device v id s)
  unfolding connect_device
  connect_device-RepliesEpochs h =
      rw (h, connect_device)
        (if-RepliesEpochs (is_still_closing (session_of id (get_or_create_session v id s))) _ _
          (result_of-RepliesEpochs _ _ id prepared (record { same_epochs = refl }))
          (if-RepliesEpochs
            (same_lifecycle (session_of id (get_or_create_session v id s)).lifecycle connected) _ _
            (result_of-RepliesEpochs _ _ id prepared (record { same_epochs = refl }))
            (start_operation-RepliesEpochs v _ _ id prepared (record { same_epochs = refl }))))

  reconnect_device-RepliesEpochs :
      (s.is_shutdown || s.is_suspended) ≡ false
      → RepliesEpochs (prepared).recovery_epochs (reconnect_device v id s)
  unfolding reconnect_device
  reconnect_device-RepliesEpochs h =
      rw (h, reconnect_device)
        (if-RepliesEpochs (is_still_closing (session_of id (get_or_create_session v id s))) _ _
          (result_of-RepliesEpochs _ _ id prepared (record { same_epochs = refl }))
          (start_operation-RepliesEpochs v _ _ id prepared (record { same_epochs = refl })))

-- Where no recovery is due, none is made.
no_recovery :
    (v : WString → Platform) (id : WString) (s : Service)
    → lookup id s.recovery_epochs ≡ none
    → resume_suspended_session v id s ≡ s
unfolding resume_suspended_session
no_recovery v id s e = elim (Bool-cases (is_empty id)) [
  | inl f ↦ rw (f) refl
  | inr f ↦ rw (f, e) refl
]

-- After the user has connected or reconnected a device, a recovery after a power transition that was planned
-- before leaves the service as it is, at that device's turn.
pub command_supersedes_recovery :
    (v : WString → Platform) (id : WString) (s : Service)
    → (s.is_shutdown || s.is_suspended) ≡ false
    → (resume_suspended_session v id (connect_device v id s).0 ≡ (connect_device v id s).0)
      × (resume_suspended_session v id (reconnect_device v id s).0 ≡ (reconnect_device v id s).0)
command_supersedes_recovery v id s h =
    let epochs = (get_or_create_session v id s).recovery_epochs in
    let gone : lookup id (remove id epochs) ≡ none = lookup-remove id epochs in
    (
      no_recovery v id _
          (ap (lookup id) (connect_device-RepliesEpochs v id s h).then_epochs.same_epochs ∙ gone),
      no_recovery v id _
          (ap (lookup id) (reconnect_device-RepliesEpochs v id s h).then_epochs.same_epochs ∙ gone),
    )
