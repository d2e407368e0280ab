-- ===== src/Device/Service/Tasks.antt =====
-- What every task of `DeviceService` (AudioPlaybackConnector2/src/core/DeviceService.cpp) keeps.
use audio_playback_connector.Prelude.{
  ◌∙◌, inr, subst, inl, some, Option, Bool-cases, ℕ, ◌≡◌, Bool, true, false, not, ◌&&◌, ◌||◌,
  is_some, ◌==◌, arith,
}
use audio_playback_connector.Device.Session.World.{
  here, connects, disconnects, cancels, enables_reconnect, enables_incoming,
}
use audio_playback_connector.Text.Table.{lookup-put-other, Table, lookup, put, put-Every, remove}
use audio_playback_connector.Text.Utf16.{WString}
use audio_playback_connector.Device.Session.Data.{
  Session, same_lifecycle, disconnecting, connected, Platform, OperationKind, fresh_session,
}
use audio_playback_connector.Text.{same_iff, same, is_empty}
use audio_playback_connector.Device.Session.Power.{is_busy}
use audio_playback_connector.Device.Session.Safety.{Inv}
use audio_playback_connector.Device.Service.Data.{
  Service, Completion, CommandKind, CommandResult, FactKind,
}
use audio_playback_connector.Device.Service.Publish.{publish, create_session, get_or_create_session}
use audio_playback_connector.Device.Service.Commands.{
  epoch_of, session_of, start_operation, connect_device, reconnect_device, disconnect_device,
  cancel_reconnect_device, cancel_pending_reconnects, disconnect_all_devices, reconnect_connected,
  reconnect_all_devices, cancel_operation, give_up, start_service, stop_service,
}
use audio_playback_connector.Device.Service.Moves.{
  ended, lived, Lives, Rises-refl, Grows-refl, Moves, Moves-refl, Moves-trans, if-Moves, if-Replies,
  then-Replies, Replies,
}
use audio_playback_connector.Device.Service.Pieces.{
  publish-Moves, act-Moves, for_each-Moves, result_of-Replies,
}

second_false : (a b : Bool) → (a || b) ≡ false → b ≡ false
second_false a b h = ground arith

found_new : {o : Option Session} {t : Session} → o ≡ some t → is_some o ≡ false → ⊥
found_new e h = cc

module _ (v : WString → Platform) where
  create_session-Moves :
      (id : WString) (s : Service)
      → s.is_shutdown ≡ false
      → is_some (lookup id s.sessions) ≡ false
      → Moves v s (create_session v id s)
  unfolding create_session
  create_session-Moves id s up new =
      let added : Moves v s (record s { sessions = put id fresh_session s.sessions }) = record {
        sound = λ h. record {
          each = put-Every Inv id fresh_session s.sessions (record { good = ground arith }) h.each;
          consistent = h.consistent;
          closed = λ e. cc;
        };
        grows = (Moves-refl {v = v} s).grows;
        rises = (Moves-refl {v = v} s).rises;
        lives = λ j old e. elim (Bool-cases (same j id)) [
          | inl k ↦
              absurd (
                found_new (subst (λ i. lookup i s.sessions ≡ some old) ((same_iff j id).0 k) e) new)
          | inr k ↦ lived (lookup-put-other j id fresh_session s.sessions k ∙ e) here
        ];
        down = λ h. h;
      } in
      let enabled = Moves-trans added (act-Moves id _ _ λ t. enables_reconnect _) in
      if-Moves s.is_incoming_enabled
        (λ e. Moves-trans enabled (act-Moves id _ _ λ t. enables_incoming _)) (λ e. enabled)

  pub get_or_create_session-Moves :
      (id : WString) (s : Service) → Moves v s (get_or_create_session v id s)
  unfolding get_or_create_session
  get_or_create_session-Moves id s =
      if-Moves (is_empty id || s.is_shutdown) (λ e. Moves-refl s)
        λ e.
          if-Moves (is_some (lookup id s.sessions)) (λ f. Moves-refl s)
            λ f. create_session-Moves id s (second_false _ _ e) f

  -- The recovery epochs are no part of what is kept.
  pub forgets-Moves :
      {s t : Service} (r : Table ℕ) → Moves v s t → Moves v s (record t { recovery_epochs = r })
  forgets-Moves {s} {t} r m = record {
    sound = λ h. m.sound h;
    grows = m.grows;
    rises = m.rises;
    lives = λ id old e. kept (m.lives id old e);
    down = m.down;
  }
    where
      kept :
          {id : WString} {old : Session}
          → Lives v id old t
          → Lives v id old (record t { recovery_epochs = r })
      kept (ended h) = ended h
      kept (lived a p) = lived a p

  start_operation-Replies :
      (command : CommandKind) (o : OperationKind) (id : WString) (s : Service)
      → Replies v s (start_operation v command o id s)
  unfolding start_operation
  start_operation-Replies command o id s =
      then-Replies (act-Moves id _ s λ t. connects o true) (result_of-Replies _ _ _ _)

  pub connect_device-Replies : (id : WString) (s : Service) → Replies v s (connect_device v id s)
  unfolding connect_device
  connect_device-Replies id s =
      let u =
        forgets-Moves (remove id (get_or_create_session v id s).recovery_epochs)
          (get_or_create_session-Moves id s) in
      if-Replies (s.is_shutdown || s.is_suspended) (λ e. result_of-Replies _ _ _ s)
        λ e.
          if-Replies
            (is_busy (session_of id (get_or_create_session v id s))
              && same_lifecycle (session_of id (get_or_create_session v id s)).lifecycle
                  disconnecting
              && not (session_of id (get_or_create_session v id s)).is_suspended)
            (λ e. then-Replies u (result_of-Replies _ _ _ _))
            λ e.
              if-Replies
                (same_lifecycle (session_of id (get_or_create_session v id s)).lifecycle connected)
                (λ e. then-Replies u (result_of-Replies _ _ _ _))
                λ e. then-Replies u (start_operation-Replies _ _ id _)

  pub reconnect_device-Replies :
      (id : WString) (s : Service) → Replies v s (reconnect_device v id s)
  unfolding reconnect_device
  reconnect_device-Replies id s =
      let u =
        forgets-Moves (remove id (get_or_create_session v id s).recovery_epochs)
          (get_or_create_session-Moves id s) in
      if-Replies (s.is_shutdown || s.is_suspended) (λ e. result_of-Replies _ _ _ s)
        λ e.
          if-Replies
            (is_busy (session_of id (get_or_create_session v id s))
              && same_lifecycle (session_of id (get_or_create_session v id s)).lifecycle
                  disconnecting
              && not (session_of id (get_or_create_session v id s)).is_suspended)
            (λ e. then-Replies u (result_of-Replies _ _ _ _))
            λ e. then-Replies u (start_operation-Replies _ _ id _)

  pub disconnect_device-Replies :
      (id : WString) (s : Service) → Replies v s (disconnect_device v id s)
  unfolding disconnect_device
  disconnect_device-Replies id s =
      if-Replies (s.is_shutdown || s.is_suspended) (λ e. result_of-Replies _ _ _ s)
        λ e.
          then-Replies (get_or_create_session-Moves id s)
            (then-Replies (act-Moves id _ _ λ t. disconnects _) (result_of-Replies _ _ _ _))

  pub cancel_reconnect_device-Replies :
      (id : WString) (s : Service) → Replies v s (cancel_reconnect_device v id s)
  unfolding cancel_reconnect_device
  cancel_reconnect_device-Replies id s =
      if-Replies (s.is_shutdown) (λ e. result_of-Replies _ _ _ s)
        λ e.
          if-Replies (is_some (lookup id s.sessions))
            (λ f. then-Replies (act-Moves id _ s λ t. cancels) (result_of-Replies _ _ _ _))
            (λ f. result_of-Replies _ _ _ s)

  pub cancel_pending_reconnects-Replies :
      (s : Service) → Replies v s (cancel_pending_reconnects v s)
  unfolding cancel_pending_reconnects
  cancel_pending_reconnects-Replies s =
      if-Replies (s.is_shutdown) (λ e. result_of-Replies _ _ _ s)
        λ e.
          then-Replies (for_each-Moves _ _ s λ id u. act-Moves id _ u λ t. cancels)
            (result_of-Replies _ _ _ _)

  pub disconnect_all_devices-Replies : (s : Service) → Replies v s (disconnect_all_devices v s)
  unfolding disconnect_all_devices
  disconnect_all_devices-Replies s =
      if-Replies (s.is_shutdown || s.is_suspended) (λ e. result_of-Replies _ _ _ s)
        λ e.
          then-Replies (for_each-Moves _ _ s λ id u. act-Moves id _ u λ t. disconnects _)
            (result_of-Replies _ _ _ _)

  reconnect_connected-Moves : (id : WString) (s : Service) → Moves v s (reconnect_connected v id s)
  unfolding reconnect_connected
  reconnect_connected-Moves id s =
      if-Moves (same_lifecycle (session_of id s).lifecycle connected)
        (λ e. act-Moves id _ s λ t. connects _ true) (λ e. Moves-refl s)

  pub reconnect_all_devices-Replies : (s : Service) → Replies v s (reconnect_all_devices v s)
  unfolding reconnect_all_devices
  reconnect_all_devices-Replies s =
      if-Replies (s.is_shutdown || s.is_suspended) (λ e. result_of-Replies _ _ _ s)
        λ e.
          then-Replies (for_each-Moves _ _ s reconnect_connected-Moves) (result_of-Replies _ _ _ _)

  cancel_operation-Moves :
      (id : WString) (epoch : ℕ) (s : Service) → Moves v s (cancel_operation v id epoch s)
  unfolding cancel_operation
  cancel_operation-Moves id epoch s =
      if-Moves (s.is_shutdown || not (is_some (lookup id s.sessions))) (λ e. Moves-refl s)
        λ e.
          if-Moves (epoch_of (lookup id s.sessions) == epoch)
            (λ f. Moves-trans (act-Moves id _ s λ t. cancels) (act-Moves id _ _ λ t. disconnects _))
            (λ f. Moves-refl s)

  pub give_up-Moves : (c : Completion) (s : Service) → Moves v s (give_up v c s)
  unfolding give_up
  give_up-Moves c s =
      if-Moves (is_some c.status) (λ e. Moves-refl s) (λ e. cancel_operation-Moves _ _ s)

running-Moves :
    {v : WString → Platform} (b : Bool) (s : Service) → Moves v s (record s { is_running = b })
running-Moves b s = record {
  sound = λ h. h;
  grows = Grows-refl _;
  rises = Rises-refl _;
  lives = λ id old e. lived e here;
  down = λ h. h;
}

-- The fact that follows an answer.
published-Replies :
    {v : WString → Platform} {s : Service} {a : Service × CommandResult} (kind : FactKind)
    (id : WString)
    → Replies v s a
    → Replies v s (publish kind id a.0, a.1)
published-Replies kind id r = record { moved = Moves-trans r.moved (publish-Moves kind id _) }

pub start_service-Replies :
    {v : WString → Platform} (b : Bool) (s : Service) → Replies v s (start_service b s)
unfolding start_service
start_service-Replies b s =
    if-Replies s.is_shutdown (λ e. result_of-Replies _ _ _ s)
      λ e.
        if-Replies s.is_running (λ e. result_of-Replies _ _ _ s)
          λ e. then-Replies (running-Moves b s) (published-Replies _ _ (result_of-Replies _ _ _ _))

pub stop_service-Replies : {v : WString → Platform} (s : Service) → Replies v s (stop_service s)
unfolding stop_service
stop_service-Replies s =
    if-Replies (s.is_shutdown) (λ e. result_of-Replies _ _ _ s)
      λ e.
        if-Replies (not s.is_running) (λ e. result_of-Replies _ _ _ s)
          λ e.
            then-Replies (running-Moves false s) (published-Replies _ _ (result_of-Replies _ _ _ _))
