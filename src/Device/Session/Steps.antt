-- ===== src/Device/Session/Steps.antt =====
-- Every callback of the connection keeps the invariant.
use audio_playback_connector.Prelude.{
  ℕ, ◌+◌, ◌≡◌, refl, inl, Bool, true, false, not, ◌&&◌, ◌||◌, Option, none, some, arith, ◌==◌,
  is_some,
}
use audio_playback_connector.Device.Session.Data.{
  Session, ConnectionState, is_opened, Platform, ConnectionResult, ReconnectTimer, idle, connected,
  disconnecting, waiting_for_reconnect, incoming_enable, failure, unexpected_loss, advance,
  same_lifecycle, is_automatic, is_success,
}
use audio_playback_connector.Device.Session.Retry.{
  is_current, same_connection, is_current_connection,
}
use audio_playback_connector.Device.Session.Connect.{fail}
use audio_playback_connector.Device.Session.Events.{
  start, on_started, on_opened, listener_lost, connection_lost, on_state_changed, on_post_failed,
}
use audio_playback_connector.Device.Session.Safety.{or_false, View, view, BaseOk, Good, Inv, if-Inv}
use audio_playback_connector.Device.Session.Retrying.{at_rest-Good, schedule_reconnect-Inv}
use audio_playback_connector.Device.Session.Starts.{fail-Inv, start_connection-Inv}
use audio_playback_connector.Device.Session.Continues.{ready}

conn_lem :
    (b : Bool) (o : Option ℕ) (h : ℕ)
    → not (b && same_connection o h) ≡ false
    → (b ≡ true) × (is_some o ≡ true)
conn_lem b none h e = ground arith
conn_lem b (some g) h e = ground arith

pub now_current : (e : ℕ) (d : Bool) → d ≡ false → (not (not d && (e == e)) || d) ≡ false
now_current e d f = ground arith

conn :
    (epoch h : ℕ) (s : Session)
    → not (is_current_connection epoch h s) ≡ false
    → (is_current epoch s ≡ true) × (is_some s.connection ≡ true)
conn epoch h s e = conn_lem (is_current epoch s) s.connection h e

current_or : {P : Type 0} (b : Bool) → b ≡ true → b ≡ false → P
current_or b e f = absurd (ground arith)

has_conn : {P : Type 0} (o : Option ℕ) → is_some o ≡ true → o ≡ none → P
has_conn o e f = absurd (ground arith)

flying : (v : View) → BaseOk v → is_some v.connection ≡ true → v.is_close_in_flight ≡ false
flying v h c = ground arith

fail_here :
    (p : Platform) (epoch : ℕ) (r : ConnectionResult) (b : Bool) (t : Session)
    → Inv t
    → (is_current epoch t ≡ true) × (is_some t.connection ≡ true)
    → Inv (fail p (start p) epoch r b t)
fail_here p epoch r b t k c =
    fail-Inv p (start p) epoch r b t (ready p _) k.good.base (λ g. current_or _ c.0 g)
      (λ g. has_conn _ c.1 g)

established-Good :
    (v : View) (e : ℕ) (t : Option ReconnectTimer)
    → BaseOk v
    → is_some v.connection ≡ true
    → Good (record v { lifecycle = connected; timer_epoch = e; reconnect_timer = t })
established-Good v e t h c = ground arith

pub on_started-Inv :
    (p : Platform) (epoch h : ℕ) (r : ConnectionResult) (s : Session)
    → Inv s
    → Inv (on_started p epoch h r s)
unfolding on_started
on_started-Inv p epoch h r s k =
    if-Inv (not (is_current_connection epoch h s)) (λ _. k)
      (λ e.
        let c = conn epoch h s e in
        if-Inv (same_lifecycle s.lifecycle connected) (λ _. k)
          (λ _.
            if-Inv (not (is_success r)) (λ _. fail_here p epoch r false s k c)
              (λ _.
                if-Inv (not s.open_immediately)
                  (λ _. record { good = at_rest-Good (view s) idle (inl refl) k.good.base })
                  (λ _.
                    if-Inv (p.opens s.calls) (λ _. record { good = k.good })
                      (λ _.
                        fail_here p epoch failure false (record s { calls = s.calls + 1 })
                          (record { good = k.good }) c)))))

pub on_opened-Inv :
    (p : Platform) (epoch h : ℕ) (r : ConnectionResult) (b : Bool) (s : Session)
    → Inv s
    → Inv (on_opened p epoch h r b s)
unfolding on_opened
on_opened-Inv p epoch h r b s k =
    if-Inv (not (is_current_connection epoch h s)) (λ _. k)
      (λ e.
        let c = conn epoch h s e in
        if-Inv (same_lifecycle s.lifecycle connected) (λ _. k)
          (λ _.
            if-Inv (not (is_success r)) (λ _. fail_here p epoch r b s k c)
              (λ _. record {
                good = established-Good (view s) s.timer_epoch s.reconnect_timer k.good.base c.1;
              })))

listener_lost-Inv :
    (p : Platform) (s : Session) → Inv s → is_some s.connection ≡ true → Inv (listener_lost p s)
unfolding listener_lost
listener_lost-Inv p s k c =
    if-Inv (not s.is_reconnect_enabled)
      (λ _. record { good = at_rest-Good (view s) idle (inl refl) k.good.base })
      (λ _.
        schedule_reconnect-Inv p (start p) failure true false unexpected_loss s (ready p _)
          k.good.base (flying (view s) k.good.base c))

lost-BaseOk :
    (v : View) (e : ℕ) → BaseOk v → BaseOk (record v { connection = none; operation_epoch = e })
lost-BaseOk v e h = ground arith

connection_lost-Inv :
    (p : Platform) (s : Session) → Inv s → is_some s.connection ≡ true → Inv (connection_lost p s)
unfolding connection_lost
connection_lost-Inv p s k c =
    let b = lost-BaseOk (view s) (advance s.operation_epoch) k.good.base in
    if-Inv
      (not s.open_immediately
        && s.is_incoming_enabled
        && not (same_lifecycle s.lifecycle connected))
      (λ _.
        start_connection-Inv p incoming_enable false _
          (record { good = at_rest-Good _ idle (inl refl) b }))
      (λ _.
        schedule_reconnect-Inv p (start p) failure s.retry_eligible
          (is_automatic s.current_operation) _ _ (ready p _) b (flying (view s) k.good.base c))

pub on_state_changed-Inv :
    (p : Platform) (epoch h : ℕ) (c : ConnectionState) (s : Session)
    → Inv s
    → Inv (on_state_changed p epoch h c s)
unfolding on_state_changed
on_state_changed-Inv p epoch h c s k =
    if-Inv (not (is_current_connection epoch h s) || s.is_shutdown) (λ _. k)
      (λ e.
        let d =
          conn epoch h s (or_false (not (is_current_connection epoch h s)) s.is_shutdown e).0 in
        if-Inv (is_opened c)
          (λ _. record { good = established-Good (view s) _ none k.good.base d.1 })
          (λ _.
            if-Inv (same_lifecycle s.lifecycle disconnecting) (λ _. k)
              (λ _.
                if-Inv
                  (not s.open_immediately
                    && s.is_incoming_enabled
                    && same_lifecycle s.lifecycle waiting_for_reconnect)
                  (λ _. k)
                  (λ _.
                    if-Inv
                      (same_lifecycle s.lifecycle connected
                        && (not s.open_immediately && s.is_incoming_enabled))
                      (λ _. listener_lost-Inv p s k d.1) (λ _. connection_lost-Inv p s k d.1)))))

pub on_post_failed-Inv :
    (p : Platform) (epoch h : ℕ) (s : Session) → Inv s → Inv (on_post_failed p epoch h s)
unfolding on_post_failed
on_post_failed-Inv p epoch h s k =
    if-Inv (is_current_connection epoch h s)
      (λ e. fail_here p epoch failure false s k (conn epoch h s (rw (e) refl))) (λ _. k)
