-- ===== src/Device/Session/Starts.antt =====
-- Connecting and failing keep the invariant.
use audio_playback_connector.Prelude.{
  false_of_flip, ℕ, ◌+◌, ◌≤◌, ◌≡◌, refl, inr, Bool, true, false, not, ◌&&◌, ◌||◌, Option, none,
  some, arith, ◌==◌, is_some,
}
use audio_playback_connector.Device.Session.Data.{
  Session, Platform, Lifecycle, OperationKind, ConnectionResult, ReconnectTimer, connecting,
  disconnecting, waiting_for_reconnect, incoming_enable, success, failure, unspecified, replace,
  advance, same_lifecycle, is_automatic,
}
use audio_playback_connector.Device.Session.Retry.{Start, revoke_state_changed, is_current}
use audio_playback_connector.Device.Session.Connect.{
  complete_failure, fail, start_created, begin_create, prepared, start_body, start_connection,
}
use audio_playback_connector.Device.Session.Events.{start}
use audio_playback_connector.Device.Session.Safety.{
  or_false, View, view, BaseOk, Good, Base, Inv, if-Inv, Ready,
}
use audio_playback_connector.Device.Session.Retrying.{at_rest-Good, schedule_reconnect-Inv}
use audio_playback_connector.Device.Session.Closing.{close-Inv}

not_again : (a b : Bool) → a ≡ false → (a && b) ≡ true → ⊥
not_again a b e f = ground arith

has_one : (a b : Bool) → not b ≡ false → (a || b) ≡ true
has_one a b e = ground arith

or_true : (a : Bool) → (a || true) ≡ true
or_true a = ground arith

current_not : (b : Bool) → not b ≡ false → b ≡ false → ⊥
current_not b e f = ground arith

nothing_given : {n : ℕ} → some n ≡ none → ⊥
nothing_given e = ground arith

created-Good :
    (v : View) (n : ℕ)
    → BaseOk v
    → v.connection ≡ none
    → v.is_close_in_flight ≡ false
    → v.attempts ≤ 9
    → Good (record v {
      connection = some n;
      lifecycle = connecting;
      overlap = v.overlap || is_some v.connection || v.is_close_in_flight;
    })
created-Good v n h c f k = ground arith

missed-BaseOk :
    (v : View)
    → BaseOk v
    → v.connection ≡ none
    → v.is_close_in_flight ≡ false
    → v.attempts ≤ 9
    → BaseOk (record v {
      connection = none;
      lifecycle = connecting;
      overlap = v.overlap || is_some v.connection || v.is_close_in_flight;
    })
missed-BaseOk v h c f k = ground arith

-- StartConnection sets the attempts to none.
prepared-BaseOk :
    {t e : ℕ} {l : Lifecycle} {o : Option ReconnectTimer} (v : View)
    → BaseOk v
    → BaseOk (record v {
      attempts = 0;
      timer_epoch = t;
      operation_epoch = e;
      lifecycle = l;
      reconnect_timer = o;
    })
prepared-BaseOk v h = ground arith

prepared_current :
    (e : ℕ) (d u : Bool) → d ≡ false → u ≡ false → (not (not d && (e == e)) || d || u) ≡ true → ⊥
prepared_current e d u a b g = ground arith

pub is_some-none : {A : Type 0} (o : Option A) → not (is_some o) ≡ true → o ≡ none
is_some-none none e = refl
is_some-none (some a) e = ground arith

not_live : (d u i : Bool) → d ≡ false → u ≡ false → i ≡ true → (d || u || not i) ≡ true → ⊥
not_live d u i a b c e = ground arith

not_still :
    (f : Bool) (l : Lifecycle)
    → f ≡ false
    → l ≡ waiting_for_reconnect
    → (f || same_lifecycle l connecting || same_lifecycle l disconnecting) ≡ true
    → ⊥
not_still f l a b e = ground arith

-- A failure: with a connection it is closed; without one no close may be in flight.
pub fail-Inv :
    (p : Platform) (restart : Start) (epoch : ℕ) (result : ConnectionResult) (transient : Bool)
    (s : Session)
    → Ready restart s.open_immediately
    → Base s
    → (is_current epoch s ≡ false → Inv s)
    → (s.connection ≡ none → (transient ≡ false) × (s.is_close_in_flight ≡ false))
    → Inv (fail p restart epoch result transient s)
unfolding complete_failure
fail-Inv p restart epoch result transient s r h c n =
    if-Inv (not (is_current epoch s)) (λ e. c (false_of_flip _ e))
      (λ _.
        if-Inv (not (is_some s.connection))
          (λ e.
            let m = n (is_some-none s.connection e) in
            if-Inv (transient && s.open_immediately)
              (λ a. absurd (not_again transient s.open_immediately m.0 a))
              (λ _.
                schedule_reconnect-Inv p restart result s.retry_eligible
                  (is_automatic s.current_operation) unspecified (revoke_state_changed s) r h m.1))
          (λ e.
            close-Inv p epoch _ result s.retry_eligible (is_automatic s.current_operation)
              unspecified _ (at_rest-Good (view s) disconnecting (inr (inr refl)) h).base refl
              (has_one _ _ e)))

-- A connection is created for an operation that is current.
pub begin_create-Inv :
    (p : Platform) (restart : Start) (epoch : ℕ) (s : Session)
    → Ready restart s.open_immediately
    → Base s
    → ((not (is_current epoch s) || s.is_shutdown || s.is_suspended) ≡ true → Inv s)
    → s.connection ≡ none
    → s.is_close_in_flight ≡ false
    → s.transient_open_retry_attempts ≤ 9
    → Inv (begin_create p restart epoch s)
unfolding begin_create start_created
begin_create-Inv p restart epoch s r h c n f k =
    if-Inv (not (is_current epoch s) || s.is_shutdown || s.is_suspended) c (λ e.
      let cur = or_false (not (is_current epoch s)) s.is_shutdown (or_false _ s.is_suspended e).0 in
      if-Inv (p.creates s.calls)
        (λ _.
          if-Inv
            (elim (p.registers (s.calls + 1)) [
              | some token ↦ not (token == 0) && p.starts (s.calls + 1)
              | none ↦ false
            ])
            (λ _. record { good = created-Good (view s) s.calls h n f k })
            (λ _.
              fail-Inv p restart epoch failure false _ r
                (created-Good (view s) s.calls h n f k).base (λ g. absurd (current_not _ cur.0 g))
                (λ g. absurd (nothing_given g))))
        (λ _.
          fail-Inv p restart epoch failure false _ r (missed-BaseOk (view s) h n f k)
            (λ g. absurd (current_not _ cur.0 g)) (λ _. (refl, f))))

pub start_body-Inv :
    (p : Platform) (restart : Start) (operation : OperationKind) (b : Bool) (s : Session)
    → Ready restart b
    → Base s
    → ((s.is_shutdown || s.is_suspended || not s.has_device_id) ≡ true → Inv s)
    → ((s.is_close_in_flight
            || same_lifecycle s.lifecycle connecting
            || same_lifecycle s.lifecycle disconnecting)
          ≡ true
        → Inv s)
    → Inv (start_body p restart operation b s)
unfolding start_body
start_body-Inv p restart operation b s r h c1 c2 =
    if-Inv (s.is_shutdown || s.is_suspended || not s.has_device_id) c1 (λ e.
      if-Inv
        (s.is_close_in_flight
          || same_lifecycle s.lifecycle connecting
          || same_lifecycle s.lifecycle disconnecting)
        c2
        (λ f.
          let live = or_false s.is_shutdown s.is_suspended (or_false _ (not s.has_device_id) e).0 in
          let still = (or_false s.is_close_in_flight _ (or_false _ _ f).0).0 in
          if-Inv (is_some s.connection)
            (λ c.
              close-Inv p _ replace success false false unspecified _ (prepared-BaseOk (view s) h)
                refl (rw (c) (or_true _)))
            (λ c.
              begin_create-Inv p restart _ (prepared operation b s) r (prepared-BaseOk (view s) h)
                (λ g. absurd (
                  prepared_current (advance s.operation_epoch) s.is_shutdown s.is_suspended live.0
                    live.1 g))
                (is_some-none s.connection (rw (c) refl)) still (omega arith))))

-- The inner call of StartConnection, which does not open at once.
inner-Inv : (p : Platform) (b : Bool) → Ready (start_connection p 1) b
unfolding start_connection
inner-Inv p b _ t k =
    start_body-Inv p (start_connection p 0) incoming_enable false t (λ e. absurd (ground arith))
      k.good.base (λ _. k) (λ _. k)

pub start_connection-Inv :
    (p : Platform) (operation : OperationKind) (b : Bool) (s : Session)
    → Inv s
    → Inv (start p operation b s)
unfolding start_connection
start_connection-Inv p operation b s h =
    start_body-Inv p (start_connection p 1) operation b s (inner-Inv p b) h.good.base (λ _. h)
      (λ _. h)

-- A session that waited for its timer starts again.
pub start_waiting-Inv :
    (p : Platform) (operation : OperationKind) (b : Bool) (s : Session)
    → Base s
    → s.lifecycle ≡ waiting_for_reconnect
    → s.is_shutdown ≡ false
    → s.is_suspended ≡ false
    → s.is_close_in_flight ≡ false
    → Inv (start p operation b s)
unfolding start_connection
start_waiting-Inv p operation b s h l d u f =
    start_body-Inv p (start_connection p 1) operation b s (inner-Inv p b) h
      (λ e. absurd (not_live _ _ _ d u h.named e)) (λ e. absurd (not_still _ _ f l e))
