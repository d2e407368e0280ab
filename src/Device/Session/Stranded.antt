-- ===== src/Device/Session/Stranded.antt =====
-- A session that stays in Disconnecting after a cancelled retry.
use audio_playback_connector.Prelude.{
  ℕ, ◌≡◌, refl, Bool, true, false, not, ◌&&◌, ◌||◌, arith, ◌==◌, if◌then◌else◌,
}
use audio_playback_connector.Device.Session.Data.{
  Session, manual_connect, Platform, Lifecycle, OperationKind, connecting, disconnecting,
  waiting_for_reconnect, cancelled, unspecified, transient_open_retry, same_lifecycle, is_automatic,
}
use audio_playback_connector.Device.Session.Retry.{
  publish, cancel_timer, is_current, schedule_transient_open_retry,
}
use audio_playback_connector.Device.Session.Close.{continue_after_close}
use audio_playback_connector.Device.Session.Connect.{start_body, start_connection}
use audio_playback_connector.Device.Session.Events.{complete_close_cooldown}
use audio_playback_connector.Device.Session.Policy.{cancel_automatic_reconnect, cancel_reconnect}
use audio_playback_connector.Device.Session.Control.{is_manual, connect}
use audio_playback_connector.Device.Session.Steps.{now_current}
use audio_playback_connector.Device.Session.Operations.{some_left}

-- A predicate of a session, under a name that a choice can be looked through.
record At (P : Session → Type 0) (s : Session) : Type 0 where
  pub holds_at : P s

if-left :
    {P : Session → Type 0} (b : Bool) {x : Session} (y : Session)
    → b ≡ true
    → At P x
    → At P (if b then x else y)
if-left true y e a = a
if-left false y e a = absurd (ground arith)

if-right :
    {P : Session → Type 0} (b : Bool) (x : Session) {y : Session}
    → b ≡ false
    → At P y
    → At P (if b then x else y)
if-right true x e a = absurd (ground arith)
if-right false x e a = a

either :
    {P : Session → Type 0} (b : Bool) {x y : Session} → At P x → At P y → At P (if b then x else y)
either true a b = a
either false a b = b

-- Disconnecting, with nothing that would end it.
record Stuck (s : Session) : Type 0 where
  pub disconnecting_still : s.lifecycle ≡ disconnecting
  pub nothing_closing : s.is_close_in_flight ≡ false
  pub not_suspended : s.is_suspended ≡ false

quiet :
    (l : Lifecycle) (o : OperationKind)
    → l ≡ disconnecting
    → o ≡ manual_connect
    → not (
        same_lifecycle l waiting_for_reconnect
        || (same_lifecycle l connecting && is_automatic o)
        || (same_lifecycle l disconnecting && is_automatic o))
      ≡ true
quiet l o e f = rw (e, f) refl

all_false :
    (a b c d : Bool)
    → a ≡ false
    → b ≡ true
    → c ≡ true
    → d ≡ true
    → (a || not b || not c || not d) ≡ false
all_false a b c d e f g h = rw (e, f, g, h) refl

same_number : (n : ℕ) → (n == n) ≡ true
same_number n = ground arith

cancelled-Stuck :
    (p : Platform) (x : Session)
    → x.is_shutdown ≡ false
    → x.is_suspended ≡ false
    → x.is_close_in_flight ≡ true
    → x.is_close_cooldown ≡ true
    → x.is_close_continuation_abandoned ≡ false
    → x.pending_close_continuation ≡ transient_open_retry
    → x.lifecycle ≡ disconnecting
    → x.is_reconnect_cancelled ≡ true
    → At Stuck (complete_close_cooldown p x.close_barrier_epoch true x)
unfolding complete_close_cooldown continue_after_close schedule_transient_open_retry
cancelled-Stuck p x d u f c a k l r =
    if-right
      (x.is_shutdown
        || not x.is_close_in_flight
        || not x.is_close_cooldown
        || not (x.close_barrier_epoch == x.close_barrier_epoch))
      _ (all_false _ _ _ _ d f c (same_number x.close_barrier_epoch))
      (if-right (not (is_current x.operation_epoch x) || x.is_shutdown) _
        (now_current x.operation_epoch x.is_shutdown d)
        (if-right x.is_close_continuation_abandoned _ a (
          rw (k) (
            if-left
              (not (is_current x.operation_epoch x)
                || x.is_shutdown
                || x.is_suspended
                || x.is_reconnect_cancelled)
              _ (some_left _ _ r)
              (record {
                holds_at = record {
                  disconnecting_still = l;
                  nothing_closing = refl;
                  not_suspended = u;
                };
              })))))

abbrev pub quietly_cancelled : Session → Session
quietly_cancelled s =
    publish cancelled false unspecified
      (record (cancel_timer s) { is_reconnect_cancelled = true; retry_eligible = false })

-- What a cancellation leaves of a session that is not reconnecting by itself.
cancelled_quietly :
    (p : Platform) (s : Session)
    → s.is_shutdown ≡ false
    → s.lifecycle ≡ disconnecting
    → s.current_operation ≡ manual_connect
    → At (λ t. t ≡ quietly_cancelled s) (cancel_reconnect p s)
unfolding cancel_reconnect cancel_automatic_reconnect
cancelled_quietly p s d l o =
    if-right s.is_shutdown _ d
      (if-left _ _ (quiet s.lifecycle s.current_operation l o) (record { holds_at = refl }))

connect_ignored :
    (p : Platform) (op : OperationKind) (b : Bool) (t : Session)
    → Stuck t
    → At (λ u. u ≡ t) (connect p op b t)
unfolding connect start_connection start_body
connect_ignored p op b t k =
    either t.is_shutdown (record { holds_at = refl })
      (if-right (t.is_suspended && is_manual op) _ (rw (k.not_suspended) refl) (
        either (t.is_shutdown || t.is_suspended || not t.has_device_id) (record { holds_at = refl })
          (if-left
            (t.is_close_in_flight
              || same_lifecycle t.lifecycle connecting
              || same_lifecycle t.lifecycle disconnecting)
            _
            (some_left (same_lifecycle t.lifecycle disconnecting) _
              (rw (k.disconnecting_still) refl))
            (record { holds_at = refl }))))

-- In a session that is neither shut down nor suspended and disconnects after a failed open of a manual
-- connect, to open again, with the close confirmed, cooling down and not abandoned: a reconnect
-- cancelled then leaves the session disconnecting with no close in flight once the cooldown is over,
-- and a later connect, of any kind, changes nothing.
pub cancelled_reopen_strands :
    (p : Platform) (op : OperationKind) (b : Bool) (s : Session)
    → s.is_shutdown ≡ false
    → s.is_suspended ≡ false
    → s.is_close_in_flight ≡ true
    → s.is_close_cooldown ≡ true
    → s.is_close_continuation_abandoned ≡ false
    → s.pending_close_continuation ≡ transient_open_retry
    → s.current_operation ≡ manual_connect
    → s.lifecycle ≡ disconnecting
    → let t = complete_close_cooldown p s.close_barrier_epoch true (cancel_reconnect p s) in
      (t.lifecycle ≡ disconnecting) × (t.is_close_in_flight ≡ false) × (connect p op b t ≡ t)
cancelled_reopen_strands p op b s d u f c a k o l = rw ((cancelled_quietly p s d l o).holds_at) (
    let t = (cancelled-Stuck p (quietly_cancelled s) d u f c a k l refl).holds_at in
    (t.disconnecting_still, t.nothing_closing, (connect_ignored p op b _ t).holds_at))
