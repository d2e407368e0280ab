-- ===== src/Device/Session/Closing.antt =====
-- Closing a connection keeps the invariant.
use audio_playback_connector.Prelude.{
  ℕ, ◌≡◌, Bool, true, false, not, ◌&&◌, ◌||◌, none, arith, is_some,
}
use audio_playback_connector.Device.Session.Data.{
  Session, Platform, ConnectionResult, DisconnectReason, CloseContinuation, disconnecting, failed,
}
use audio_playback_connector.Device.Session.Close.{close_connection, begin_close}
use audio_playback_connector.Device.Session.Connect.{close}
use audio_playback_connector.Device.Session.Safety.{View, view, BaseOk, Good, Base, Inv, if-Inv}

nothing_to_close : (a b : Bool) → (a || b) ≡ true → a ≡ false → not b ≡ true → ⊥
nothing_to_close a b e f g = ground arith

pub closing-Good : (v : View) → BaseOk v → v.lifecycle ≡ disconnecting → Good v
closing-Good v h l = ground arith

kept-Good :
    (v : View)
    → BaseOk v
    → v.lifecycle ≡ disconnecting
    → v.is_close_in_flight ≡ true
    → Good (record v { is_abandoned = false })
kept-Good v h l f = ground arith

-- The connection is handed over to the close.
handed-Good :
    (v : View)
    → BaseOk v
    → v.lifecycle ≡ disconnecting
    → v.is_close_in_flight ≡ false
    → not (is_some v.connection) ≡ false
    → Good (record v { connection = none; is_close_in_flight = true; is_abandoned = false })
handed-Good v h l f n = ground arith

abandoned-Good :
    (v : View)
    → BaseOk v
    → v.lifecycle ≡ disconnecting
    → v.is_close_in_flight ≡ false
    → not (is_some v.connection) ≡ false
    → Good (record v {
      connection = none;
      is_close_in_flight = true;
      is_abandoned = true;
      lifecycle = failed;
    })
abandoned-Good v h l f n = ground arith

-- Closing, with a close in flight or a connection to close.
pub close-Inv :
    (p : Platform) (epoch : ℕ) (continuation : CloseContinuation) (result : ConnectionResult)
    (should_retry completed_attempt : Bool) (reason : DisconnectReason) (s : Session)
    → Base s
    → s.lifecycle ≡ disconnecting
    → (s.is_close_in_flight || is_some s.connection) ≡ true
    → Inv (close p epoch continuation result should_retry completed_attempt reason s)
unfolding begin_close close_connection
close-Inv p epoch continuation result should_retry completed_attempt reason s h l c =
    if-Inv (s.is_close_in_flight && s.is_close_continuation_abandoned)
      (λ _. record { good = closing-Good (view s) h l })
      (λ _.
        if-Inv s.is_close_in_flight (λ f. record { good = kept-Good (view s) h l f })
          (λ f.
            if-Inv (not (is_some s.connection)) (λ n. absurd (nothing_to_close _ _ c f n))
              (λ n.
                if-Inv (p.schedules s.calls) (λ _. record { good = handed-Good (view s) h l f n })
                  (λ _. record { good = abandoned-Good (view s) h l f n }))))
