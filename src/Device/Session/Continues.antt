-- ===== src/Device/Session/Continues.antt =====
-- Going on after a close keeps the invariant.
use audio_playback_connector.Prelude.{
  ℕ, ◌≤◌, ◌≡◌, refl, inl, Bool, true, false, not, ◌&&◌, ◌||◌, none, arith, ◌==◌, if◌then◌else◌,
}
use audio_playback_connector.Device.Session.Data.{
  Session, Platform, ConnectionResult, DisconnectReason, CloseContinuation, idle, incoming_enable,
  to_idle, replace, retry, transient_open_retry, suspend,
}
use audio_playback_connector.Device.Session.Retry.{
  publish_state, is_current, schedule_reconnect, schedule_transient_open_retry,
}
use audio_playback_connector.Device.Session.Close.{
  no_continuation, start_after_resume, complete_suspend_close, continue_abandoned, continue_idle,
  continue_after_close,
}
use audio_playback_connector.Device.Session.Connect.{begin_create}
use audio_playback_connector.Device.Session.Events.{start, continue}
use audio_playback_connector.Device.Session.Safety.{
  View, view, BaseOk, Good, Base, Inv, if-Inv, Ready,
}
use audio_playback_connector.Device.Session.Retrying.{
  at_rest-Good, restore_incoming-Inv, schedule_reconnect-Inv, schedule_transient_open_retry-Inv,
}
use audio_playback_connector.Device.Session.Starts.{begin_create-Inv, start_connection-Inv}

-- StartAfterResume and the continuation of a close.
pub start_after_resume-Inv :
    (p : Platform) (s : Session) → Inv s → Inv (start_after_resume (start p) s)
unfolding start_after_resume
start_after_resume-Inv p s h =
    if-Inv s.resume_required
      (λ _.
        start_connection-Inv p s.resume_operation s.resume_open_immediately
          (record s { resume_required = false }) (record { good = h.good }))
      (λ _.
        if-Inv s.is_incoming_enabled (λ _. start_connection-Inv p incoming_enable false s h)
          (λ _. record { good = h.good }))

suspended-Good :
    (v : View) (u : Bool)
    → BaseOk v
    → Good (record v { connection = none; lifecycle = idle; is_suspended = u })
suspended-Good v u h = ground arith

complete_suspend_close-Inv :
    (p : Platform) (epoch : ℕ) (s : Session)
    → Inv s
    → Inv (complete_suspend_close (start p) epoch s)
unfolding complete_suspend_close
complete_suspend_close-Inv p epoch s h =
    if-Inv
      (s.is_shutdown
        || not s.is_suspended
        || not s.is_suspend_close_pending
        || not (s.suspend_close_epoch == epoch)
        || not (s.operation_epoch == epoch))
      (λ _. h)
      (λ _.
        if-Inv (not s.resume_requested)
          (λ _. record { good = suspended-Good (view s) s.is_suspended h.good.base })
          (λ _.
            start_after_resume-Inv p _
              (record { good = suspended-Good (view s) false h.good.base })))

pub ready : (p : Platform) (b : Bool) → Ready (start p) b
ready p b e t h = start_connection-Inv p incoming_enable false t h

abandoned_idle :
    (v : View) (u : Bool)
    → BaseOk (record v { is_abandoned = false })
    → Good (record v { is_abandoned = false; lifecycle = idle; is_suspended = u })
abandoned_idle v u h = ground arith

-- A session that comes to rest after a choice.
ending-Inv :
    (b : Bool) (x y : Session)
    → Good (record (view x) { lifecycle = idle })
    → Good (record (view y) { lifecycle = idle })
    → Inv (publish_state (record (if b then x else y) { lifecycle = idle }))
ending-Inv true x y g h = record { good = g }
ending-Inv false x y g h = record { good = h }

continue_abandoned-Inv :
    (p : Platform) (s : Session)
    → BaseOk (record (view s) { is_abandoned = false })
    → Inv (continue_abandoned (start p) s)
unfolding continue_abandoned
continue_abandoned-Inv p s h = restore_incoming-Inv (start p) _ (ready p _) (
    ending-Inv s.is_suspend_close_pending _ _ (abandoned_idle (view s) _ h)
      (abandoned_idle (view s) _ h))

continue_idle-Inv :
    (p : Platform) (result : ConnectionResult) (reason : DisconnectReason) (s : Session)
    → Base s
    → Inv (continue_idle (start p) result reason s)
unfolding continue_idle
continue_idle-Inv p result reason s h =
    let g = at_rest-Good (view s) idle (inl refl) h in
    if-Inv (s.restore_incoming_after_close && s.is_incoming_enabled && not s.is_suspended)
      (λ _. start_connection-Inv p incoming_enable false _ (record { good = g }))
      (λ _. record { good = g })

both : (b : Bool) → b ≡ true → b ≡ false → ⊥
both b e f = ground arith

-- Each continuation.
continued-Inv :
    (p : Platform) (epoch : ℕ) (cooled : Bool) (s : Session)
    → Inv s
    → s.is_close_in_flight ≡ false
    → s.connection ≡ none
    → s.transient_open_retry_attempts ≤ 9
    → (c : CloseContinuation)
    → let t = no_continuation s in
      Inv (elim c [
        | replace ↦ begin_create p (start p) epoch t
        | retry ↦
            schedule_reconnect p
              (start p)
              s.pending_close_failure
              s.pending_close_retry_eligible
              s.pending_close_completed_attempt
              s.pending_close_disconnect_reason
              t
        | transient_open_retry ↦
            schedule_transient_open_retry p (start p) epoch s.pending_close_failure cooled t
        | suspend ↦ complete_suspend_close (start p) epoch t
        | to_idle ↦
            continue_idle (start p) s.pending_close_failure s.pending_close_disconnect_reason t
      ])
continued-Inv p epoch cooled s h f n k replace =
    begin_create-Inv p (start p) epoch (no_continuation s) (ready p _) h.good.base
      (λ _. record { good = h.good }) n f k
continued-Inv p epoch cooled s h f n k retry =
    schedule_reconnect-Inv p (start p) _ _ _ _ (no_continuation s) (ready p _) h.good.base f
continued-Inv p epoch cooled s h f n k transient_open_retry =
    schedule_transient_open_retry-Inv p (start p) epoch _ cooled (no_continuation s) (ready p _)
      (record { good = h.good }) k n f
continued-Inv p epoch cooled s h f n k suspend =
    complete_suspend_close-Inv p epoch (no_continuation s) (record { good = h.good })
continued-Inv p epoch cooled s h f n k to_idle =
    continue_idle-Inv p _ _ (no_continuation s) h.good.base

-- After a close nothing is in flight, there is no connection, and no timer was waited for.
pub continue-Inv :
    (p : Platform) (epoch : ℕ) (cooled : Bool) (s : Session)
    → BaseOk (record (view s) { is_abandoned = false })
    → (s.is_close_continuation_abandoned ≡ false → Inv s)
    → (not (is_current epoch s) || s.is_shutdown) ≡ false
    → s.is_close_in_flight ≡ false
    → s.connection ≡ none
    → s.transient_open_retry_attempts ≤ 9
    → Inv (continue p epoch cooled s)
unfolding continue_after_close
continue-Inv p epoch cooled s h c cur f n k =
    if-Inv (not (is_current epoch s) || s.is_shutdown) (λ e. absurd (both _ e cur))
      (λ _.
        if-Inv s.is_close_continuation_abandoned
          (λ _. continue_abandoned-Inv p (no_continuation s) h)
          (λ e. continued-Inv p epoch cooled s (c e) f n k s.pending_close_continuation))
