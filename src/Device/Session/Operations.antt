-- ===== src/Device/Session/Operations.antt =====
-- The public operations that stop or allow reconnecting keep the invariant.
use audio_playback_connector.Prelude.{
  false_of_flip, true_of_flip, ℕ, ◌≡◌, refl, Bool, true, false, not, ◌&&◌, ◌||◌, Option, none,
  arith, is_some,
}
use audio_playback_connector.Device.Session.Data.{
  Session, Platform, Lifecycle, ReconnectTimer, idle, connecting, disconnecting,
  waiting_for_reconnect, incoming_enable, success, failure, cancelled, unspecified, device_removed,
  to_idle, retry, same_lifecycle, is_automatic,
}
use audio_playback_connector.Device.Session.Events.{start}
use audio_playback_connector.Device.Session.Safety.{or_false, View, view, BaseOk, Good, Inv, if-Inv}
use audio_playback_connector.Device.Session.Retrying.{schedule_reconnect-Inv}
use audio_playback_connector.Device.Session.Closing.{close-Inv}
use audio_playback_connector.Device.Session.Policy.{
  cancel_automatic_reconnect, cancel_reconnect, set_reconnect_enabled, handle_device_removed,
}
use audio_playback_connector.Device.Session.Starts.{start_connection-Inv}
use audio_playback_connector.Device.Session.Continues.{ready}

-- A session about to close, whatever its timer and its operation's epoch.
pub moved-BaseOk :
    {e t : ℕ} {o : Option ReconnectTimer} {l : Lifecycle} {u : Bool} (v : View)
    → BaseOk v
    → BaseOk (record v {
      timer_epoch = t;
      operation_epoch = e;
      lifecycle = l;
      reconnect_timer = o;
      is_suspended = u;
    })
moved-BaseOk v h = ground arith

pub rests :
    {e t : ℕ} {o : Option ReconnectTimer} {u : Bool} (v : View)
    → BaseOk v
    → Good (record v {
      timer_epoch = t;
      operation_epoch = e;
      lifecycle = idle;
      reconnect_timer = o;
      is_suspended = u;
    })
rests v h = ground arith

pub or_comm : (a b : Bool) → (a || b) ≡ true → (b || a) ≡ true
or_comm a b e = ground arith

-- Cancelling a timer that nothing waits for.
untimed :
    {t : ℕ} (v : View) (c : Bool)
    → Good v
    → (same_lifecycle v.lifecycle waiting_for_reconnect || c) ≡ false
    → Good (record v { timer_epoch = t; reconnect_timer = none })
untimed v c h e = ground arith

pub cancel_automatic_reconnect-Inv :
    (p : Platform) (b : Bool) (s : Session) → Inv s → Inv (cancel_automatic_reconnect p b s)
unfolding cancel_automatic_reconnect
cancel_automatic_reconnect-Inv p b s k =
    if-Inv
      (not (
        same_lifecycle s.lifecycle waiting_for_reconnect
        || (same_lifecycle s.lifecycle connecting && is_automatic s.current_operation)
        || (same_lifecycle s.lifecycle disconnecting && is_automatic s.current_operation)))
      (λ e. record {
        good =
            untimed (view s) _ k.good
              (or_false _
                (same_lifecycle s.lifecycle disconnecting && is_automatic s.current_operation)
                (false_of_flip _ e)).0;
      })
      (λ _.
        if-Inv (is_some s.connection || s.is_close_in_flight)
          (λ e.
            close-Inv p _ to_idle cancelled false false unspecified _
              (moved-BaseOk (view s) k.good.base) refl
              (or_comm (is_some s.connection) s.is_close_in_flight e))
          (λ _.
            if-Inv (b && s.is_incoming_enabled)
              (λ _.
                start_connection-Inv p incoming_enable false _
                  (record { good = rests (view s) k.good.base }))
              (λ _. record { good = rests (view s) k.good.base })))

pub cancel_reconnect-Inv : (p : Platform) (s : Session) → Inv s → Inv (cancel_reconnect p s)
unfolding cancel_reconnect
cancel_reconnect-Inv p s k =
    if-Inv s.is_shutdown (λ _. k)
      (λ _.
        cancel_automatic_reconnect-Inv p s.is_incoming_enabled
          (record s { is_reconnect_cancelled = true }) (record { good = k.good }))

pub set_reconnect_enabled-Inv :
    (p : Platform) (b : Bool) (s : Session) → Inv s → Inv (set_reconnect_enabled p b s)
unfolding set_reconnect_enabled
set_reconnect_enabled-Inv p b s k =
    if-Inv s.is_shutdown (λ _. k)
      (λ _.
        if-Inv
          (not b
            && (same_lifecycle s.lifecycle waiting_for_reconnect
                || ((same_lifecycle s.lifecycle connecting
                      || same_lifecycle s.lifecycle disconnecting)
                    && is_automatic s.current_operation)))
          (λ _.
            cancel_automatic_reconnect-Inv p s.is_incoming_enabled
              (record s { is_reconnect_enabled = b }) (record { good = k.good }))
          (λ _. record { good = k.good }))

idle_here :
    {t : ℕ} (a b c : Bool) (v : View)
    → Good v
    → (a && b && same_lifecycle v.lifecycle idle && c) ≡ true
    → Good (record v { timer_epoch = t; reconnect_timer = none })
idle_here a b c v h e = ground arith

pub some_left : (a b : Bool) → a ≡ true → (b || a) ≡ true
some_left a b e = ground arith

pub some_right : (a b : Bool) → a ≡ true → (a || b) ≡ true
some_right a b e = ground arith

and4 : (a b c d : Bool) → (a && b && c && d) ≡ true → a ≡ true
and4 a b c d e = ground arith

pub handle_device_removed-Inv :
    (p : Platform) (s : Session) → Inv s → Inv (handle_device_removed p s)
unfolding handle_device_removed
handle_device_removed-Inv p s k =
    if-Inv s.is_shutdown (λ _. k)
      (λ _.
        if-Inv
          (not (is_some s.connection)
            && not s.is_close_in_flight
            && same_lifecycle s.lifecycle idle
            && not s.retry_eligible)
          (λ e. record {
            good =
                idle_here (not (is_some s.connection)) (not s.is_close_in_flight)
                  (not s.retry_eligible) (view s) k.good e;
          })
          (λ _.
            if-Inv
              (is_some s.connection
                && same_lifecycle s.lifecycle idle
                && s.is_incoming_enabled
                && not s.retry_eligible)
              (λ e.
                close-Inv p _ to_idle success false false unspecified _
                  (moved-BaseOk (view s) k.good.base) refl
                  (some_left _ s.is_close_in_flight (
                    and4 _ (same_lifecycle s.lifecycle idle) s.is_incoming_enabled
                      (not s.retry_eligible) e)))
              (λ _.
                if-Inv s.is_close_in_flight
                  (λ f.
                    close-Inv p _ retry failure s.retry_eligible false device_removed _
                      (moved-BaseOk (view s) k.good.base) refl
                      (some_right _ (is_some s.connection) f))
                  (λ f.
                    if-Inv (not (is_some s.connection))
                      (λ _.
                        schedule_reconnect-Inv p (start p) failure s.retry_eligible false
                          device_removed _ (ready p _) (moved-BaseOk (view s) k.good.base) f)
                      (λ n.
                        close-Inv p _ retry failure s.retry_eligible false device_removed _
                          (moved-BaseOk (view s) k.good.base) refl
                          (some_left _ s.is_close_in_flight (true_of_flip _ n)))))))
