-- ===== src/Device/Session/Retrying.antt =====
-- Scheduling the next attempt, and giving up, keep the invariant.
use audio_playback_connector.Prelude.{
  ℕ, ◌+◌, ◌≤◌, ◌≡◌, refl, sym, subst, ◌⊎◌, inl, inr, Bool, true, false, not, ◌&&◌, ◌||◌, Option,
  none, some, arith, leb, ◌==◌, is_some,
}
use audio_playback_connector.Device.Reconnect.{evaluate, connection_loss, is_terminal}
use audio_playback_connector.Device.Session.Data.{
  Session, Platform, Lifecycle, ConnectionResult, DisconnectReason, ReconnectTimer, retry_timer,
  transient_timer, idle, disconnecting, waiting_for_reconnect, failed, failure, unspecified,
  advance, transient_open_retry_max_attempts, transient_open_retry_delay,
}
use audio_playback_connector.Device.Session.Retry.{
  Start, publish, is_current, restore_incoming, fail_terminally, schedule_timer, schedule_reconnect,
  schedule_transient_open_retry,
}
use audio_playback_connector.Device.Session.Safety.{
  and_right, or_false, View, view, TimerOk, BaseOk, Good, Base, Inv, if-Inv, Ready,
}

pub at_rest-Good :
    (v : View) (l : Lifecycle)
    → (l ≡ idle) ⊎ ((l ≡ failed) ⊎ (l ≡ disconnecting))
    → BaseOk v
    → Good (record v { lifecycle = l })
at_rest-Good v l e h = ground arith

pub restore_incoming-Inv :
    (restart : Start) (s : Session)
    → Ready restart s.open_immediately
    → Inv s
    → Inv (restore_incoming restart s)
unfolding restore_incoming
restore_incoming-Inv restart s r h =
    if-Inv
      (not s.restore_incoming_after_close && (not s.is_incoming_enabled || not s.open_immediately))
      (λ _. h)
      (λ _.
        if-Inv
          (not s.is_shutdown && not s.is_suspended && s.is_incoming_enabled && s.open_immediately)
          (λ e.
            r (and_right _ _ e) (record s { restore_incoming_after_close = false })
              (record { good = h.good }))
          (λ _. record { good = h.good }))

pub fail_terminally-Inv :
    (restart : Start) (result : ConnectionResult) (reason : DisconnectReason) (s : Session)
    → Ready restart s.open_immediately
    → Base s
    → Inv (fail_terminally restart result reason s)
fail_terminally-Inv restart result reason s r h =
    restore_incoming-Inv restart (publish result true reason (record s { lifecycle = failed })) r
      (record { good = at_rest-Good (view s) failed (inr (inl refl)) h })

waiting-Good :
    (v : View) (t : ReconnectTimer)
    → BaseOk v
    → TimerOk v (some t)
    → v.is_close_in_flight ≡ false
    → v.is_shutdown ≡ false
    → v.is_suspended ≡ false
    → Good (record v { lifecycle = waiting_for_reconnect; reconnect_timer = some t })
waiting-Good v (retry_timer a b) h k f d u = ground arith
waiting-Good v (transient_timer a b) h k f d u = ground arith

pub without_timer-BaseOk :
    (v : View) (t : Option ReconnectTimer) (l : Lifecycle) (n : ℕ)
    → BaseOk v
    → BaseOk (record v { reconnect_timer = t; lifecycle = l; timer_epoch = n })
without_timer-BaseOk v t l n h = ground arith

guard5 : (a b c d e : Bool) → (a || b || c || d || e) ≡ false → (a ≡ false) × (b ≡ false)
guard5 a b c d e h = (or_false a b (or_false _ c (or_false _ d (or_false _ e h).0).0).0)

current_epoch : (a b : ℕ) (d : Bool) → not (not d && (a == b)) ≡ false → a ≡ b
current_epoch a b d e = ground arith

guard4 :
    (epoch : ℕ) (s : Session)
    → (not (is_current epoch s) || s.is_shutdown || s.is_suspended || s.is_reconnect_cancelled)
      ≡ false
    → (epoch ≡ s.operation_epoch) × (s.is_shutdown ≡ false) × (s.is_suspended ≡ false)
guard4 epoch s e =
    let f = or_false _ s.is_suspended (or_false _ _ e).0 in
    let g = or_false (not (is_current epoch s)) s.is_shutdown f.0 in
    (current_epoch epoch s.operation_epoch s.is_shutdown g.0, g.1, f.1)

-- The session that waits.
pub schedule_timer-Inv :
    (p : Platform) (restart : Start) (delay : ℕ) (timer : ReconnectTimer)
    (result : ConnectionResult) (reason : DisconnectReason) (s : Session)
    → Ready restart s.open_immediately
    → Base s
    → TimerOk (view s) (some timer)
    → s.is_close_in_flight ≡ false
    → s.is_shutdown ≡ false
    → s.is_suspended ≡ false
    → s.lifecycle ≡ waiting_for_reconnect
    → Inv (schedule_timer p restart delay timer result reason s)
unfolding schedule_timer
schedule_timer-Inv p restart delay timer result reason s r h k f d u l =
    if-Inv (p.schedules s.calls)
      (λ _. record {
        good =
            subst (λ x. Good (record (view s) { lifecycle = x; reconnect_timer = some timer }))
              (sym l) (waiting-Good (view s) timer h k f d u);
      })
      (λ _.
        fail_terminally-Inv restart failure reason
          (record s { calls = s.calls + 1; timer_delay = delay; reconnect_timer = none }) r
          (without_timer-BaseOk (view s) none s.lifecycle s.timer_epoch h))

pub schedule_reconnect-Inv :
    (p : Platform) (restart : Start) (result : ConnectionResult)
    (should_retry completed_attempt : Bool) (reason : DisconnectReason) (s : Session)
    → Ready restart s.open_immediately
    → Base s
    → s.is_close_in_flight ≡ false
    → Inv (schedule_reconnect p restart result should_retry completed_attempt reason s)
unfolding schedule_reconnect
schedule_reconnect-Inv p restart result should_retry true reason s r h f =
    if-Inv
      (s.is_shutdown
        || s.is_suspended
        || not should_retry
        || not s.is_reconnect_enabled
        || s.is_reconnect_cancelled)
      (λ _. fail_terminally-Inv restart result reason s r h)
      (λ e.
        let g = guard5 _ _ _ _ _ e in
        if-Inv
          (is_terminal
            (evaluate record {
              request = connection_loss;
              completed_attempts = (advance s.completed_retry_attempts);
              is_blocked = false;
            }).kind)
          (λ _.
            fail_terminally-Inv restart result reason
              (record s { completed_retry_attempts = advance s.completed_retry_attempts }) r h)
          (λ _.
            schedule_timer-Inv p restart _ (retry_timer (advance s.timer_epoch) s.operation_epoch)
              result reason _ r
              (without_timer-BaseOk (view s) s.reconnect_timer waiting_for_reconnect
                (advance s.timer_epoch) h)
              (refl, refl) f g.0 g.1 refl))
schedule_reconnect-Inv p restart result should_retry false reason s r h f =
    if-Inv
      (s.is_shutdown
        || s.is_suspended
        || not should_retry
        || not s.is_reconnect_enabled
        || s.is_reconnect_cancelled)
      (λ _. fail_terminally-Inv restart result reason s r h)
      (λ e.
        let g = guard5 _ _ _ _ _ e in
        if-Inv
          (is_terminal
            (evaluate record {
              request = connection_loss;
              completed_attempts = s.completed_retry_attempts;
              is_blocked = false;
            }).kind)
          (λ _. fail_terminally-Inv restart result reason s r h)
          (λ _.
            schedule_timer-Inv p restart _ (retry_timer (advance s.timer_epoch) s.operation_epoch)
              result reason _ r
              (without_timer-BaseOk (view s) s.reconnect_timer waiting_for_reconnect
                (advance s.timer_epoch) h)
              (refl, refl) f g.0 g.1 refl))

-- The table of delays covers every attempt that is not the last.
pub delay_in_bounds :
    (n : ℕ)
    → n ≤ 9
    → leb transient_open_retry_max_attempts (advance n) ≡ false
    → (is_some (transient_open_retry_delay (advance n)) ≡ true) × (advance n ≤ 9)
unfolding advance transient_open_retry_delay
delay_in_bounds n h k = ground arith

transient-BaseOk :
    (v : View) (n : ℕ) (b : Bool) (e : ℕ)
    → BaseOk v
    → v.attempts ≤ 9
    → n ≤ 9
    → b ≡ true
    → BaseOk (record v {
      attempts = n;
      bad_index = v.bad_index || not b;
      lifecycle = waiting_for_reconnect;
      timer_epoch = e;
    })
transient-BaseOk v n b e h k l c = ground arith

exhausted-BaseOk :
    (v : View)
    → BaseOk v
    → v.attempts ≤ 9
    → v.connection ≡ none
    → v.is_close_in_flight ≡ false
    → BaseOk (record v { attempts = advance v.attempts })
unfolding advance
exhausted-BaseOk v h k c f = ground arith

pub schedule_transient_open_retry-Inv :
    (p : Platform) (restart : Start) (epoch : ℕ) (result : ConnectionResult) (cooled : Bool)
    (s : Session)
    → Ready restart s.open_immediately
    → Inv s
    → s.transient_open_retry_attempts ≤ 9
    → s.connection ≡ none
    → s.is_close_in_flight ≡ false
    → Inv (schedule_transient_open_retry p restart epoch result cooled s)
unfolding schedule_transient_open_retry
schedule_transient_open_retry-Inv p restart epoch result cooled s r h k c f =
    if-Inv (not (is_current epoch s) || s.is_shutdown || s.is_suspended || s.is_reconnect_cancelled)
      (λ _. h)
      (λ e.
        if-Inv (leb transient_open_retry_max_attempts (advance s.transient_open_retry_attempts))
          (λ _.
            fail_terminally-Inv restart result unspecified _ r
              (exhausted-BaseOk (view s) h.good.base k c f))
          (λ g.
            let b = delay_in_bounds s.transient_open_retry_attempts k g in
            schedule_timer-Inv p restart _ (transient_timer (advance s.timer_epoch) epoch) result
              unspecified _ r
              (transient-BaseOk (view s) _ _ (advance s.timer_epoch) h.good.base k b.1 b.0)
              (refl, (guard4 epoch s e).0, c, b.1) f (guard4 epoch s e).1 (guard4 epoch s e).2
              refl))
