-- ===== src/Device/Service/Transitions.antt =====
-- What the power transitions and the end keep of `DeviceService`
-- (AudioPlaybackConnector2/src/core/DeviceService.cpp).
use audio_playback_connector.Prelude.{
  refl, Bool, true, false, not, ◌&&◌, ◌||◌, List, [], is_some, ◌==◌, Option-cases, inl, inr,
}
use audio_playback_connector.Text.{is_empty}
use audio_playback_connector.Device.Session.World.{
  suspends, resumes, resumes_idle, cancels_recovery,
}
use audio_playback_connector.Text.Table.{lookup, keys, distinct}
use audio_playback_connector.Text.Utf16.{WString}
use audio_playback_connector.Device.Session.Data.{Platform}
use audio_playback_connector.Device.Session.Power.{suspend_session}
use audio_playback_connector.Device.Service.Data.{Service, shutdown_fact, session_changed}
use audio_playback_connector.Device.Service.Publish.{publish, act, for_each}
use audio_playback_connector.Device.Service.Commands.{epoch_of}
use audio_playback_connector.Device.Service.Power.{
  epochs_of, recovery_ids, suspend_service, resume_service, resume_after_power_transition,
  resume_suspended_session, resume_suspended_sessions, shutdown_service,
}
use audio_playback_connector.Device.Service.Tasks.{forgets-Moves}
use audio_playback_connector.Device.Service.Moves.{
  ended, Moves, Moves-refl, Moves-trans, if-Moves, if-Replies, Replies,
}
use audio_playback_connector.Device.Service.Pieces.{
  closing-Sound, publish-Moves, act-Moves, for_each-Moves,
}
use audio_playback_connector.Device.Service.Policies.{aside-Moves}

module _ (v : WString → Platform) where
  pub suspend_service-Replies : (s : Service) → Replies v s (suspend_service v s)
  unfolding suspend_service
  suspend_service-Replies s =
      if-Replies (s.is_shutdown || s.is_suspended) (λ e. record { moved = Moves-refl s })
        λ e. record {
          moved =
              Moves-trans
                (Moves-trans
                  (aside-Moves s s.is_running true s.recovery_epochs s.active_subscription
                    s.next_subscription)
                  (for_each-Moves (keys s.sessions) (λ id. act id (suspend_session (v id))) _
                    λ id u. act-Moves id _ u λ t. suspends))
                (Moves-trans
                  (aside-Moves _ _ _
                    (epochs_of (recovery_ids s.sessions)
                      (for_each (keys s.sessions) (λ id. act id (suspend_session (v id)))
                        (record s { is_suspended = true })).sessions)
                    _ _)
                  (publish-Moves session_changed [] _));
        }

  pub resume_service-Moves : (b : Bool) (s : Service) → Moves v s (resume_service v b s)
  unfolding resume_service
  resume_service-Moves b s =
      if-Moves (s.is_shutdown || not s.is_suspended) (λ e. Moves-refl s)
        λ e.
          Moves-trans
            (aside-Moves s (s.is_running && b) false [] s.active_subscription s.next_subscription)
            (Moves-trans
              (for_each-Moves (keys s.sessions) _ _ λ id u. act-Moves id _ u λ t. resumes)
              (publish-Moves _ _ _))

  pub resume_after-Moves :
      (b : Bool) (s : Service) → Moves v s (resume_after_power_transition v b s)
  unfolding resume_after_power_transition
  resume_after-Moves b s =
      let awake =
        aside-Moves s (s.is_running && b) false s.recovery_epochs s.active_subscription
          s.next_subscription in
      if-Moves s.is_shutdown (λ e. Moves-refl s)
        λ e.
          Moves-trans
            (if-Moves s.is_suspended
              (λ f.
                Moves-trans awake (
                  for_each-Moves (keys s.sessions) _ _
                    λ id u. act-Moves id _ u (λ t. resumes_idle)))
              (λ f. awake))
            (publish-Moves _ _ _)

  resume_suspended_session-Moves :
      (id : WString) (s : Service) → Moves v s (resume_suspended_session v id s)
  unfolding resume_suspended_session
  resume_suspended_session-Moves id s =
      if-Moves (is_empty id) (λ e. Moves-refl s)
        λ e. elim (Option-cases (lookup id s.recovery_epochs)) [
          | inl f ↦ rw (f) (Moves-refl s)
          | inr (epoch, f) ↦ rw (f) (
              if-Moves (is_some (lookup id s.sessions) && epoch_of (lookup id s.sessions) == epoch)
                (λ e. forgets-Moves v _ (act-Moves id _ s λ t. resumes))
                (λ e. forgets-Moves v _ (act-Moves id _ s (λ t. cancels_recovery))))
        ]

  pub resume_suspended_sessions-Moves :
      (ids : List WString) (s : Service) → Moves v s (resume_suspended_sessions v ids s)
  unfolding resume_suspended_sessions
  resume_suspended_sessions-Moves ids s =
      if-Moves (s.is_shutdown || s.is_suspended) (λ e. Moves-refl s)
        λ e.
          Moves-trans (for_each-Moves (distinct ids) _ s resume_suspended_session-Moves)
            (publish-Moves _ _ _)

closing :
    (v : WString → Platform) (s : Service)
    → let t = record s { is_shutdown = true; is_running = false; sessions = [] } in
      Moves v t (publish shutdown_fact [] t)
closing v s = publish-Moves _ _ _

pub shutdown_service-Moves : {v : WString → Platform} (s : Service) → Moves v s (shutdown_service s)
unfolding shutdown_service
shutdown_service-Moves {v} s =
    if-Moves s.is_shutdown (λ e. Moves-refl s)
      λ e. record {
        sound = λ h.
            let k =
              closing-Sound (record s { is_shutdown = true; is_running = false; sessions = [] })
                refl refl h.consistent in
            record { each = k.each; consistent = k.consistent; closed = k.closed };
        grows = (closing v s).grows;
        rises = (closing v s).rises;
        lives = λ id old e. ended ((closing v s).down refl);
        down = λ h. (closing v s).down refl;
      }
