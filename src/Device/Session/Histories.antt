-- ===== src/Device/Session/Histories.antt =====
-- What holds in every history of a session.
use audio_playback_connector.Prelude.{
  inl, inr, ◌⊎◌, Bool-cases, false, none, ℕ, ◌≡◌, Bool, true, not, ◌||◌, some, arith, ◌==◌, is_some,
  Option-cases,
}
use audio_playback_connector.Device.Session.World.{
  renames, Step, Reach, here, next, removed, connects, disconnects, cancels, enables_reconnect,
  enables_incoming, suspends, resumes, resumes_idle, cancels_recovery, shuts_down, starts, opens,
  changes, post_failed, closes, cools, retries, reopens,
}
use audio_playback_connector.Device.Session.Commands.{
  rename-Inv, connect-Inv, disconnect-Inv, set_incoming_enabled-Inv, suspend_session-Inv,
  resume_session-Inv, resume_idle-Inv, cancel_recovery-Inv, shutdown-Inv,
}
use audio_playback_connector.Device.Session.Data.{
  Session, Platform, Lifecycle, ReconnectTimer, retry_timer, transient_timer, connecting, connected,
  waiting_for_reconnect, same_lifecycle, fresh_session,
}
use audio_playback_connector.Device.Session.Events.{timer_is_stale}
use audio_playback_connector.Device.Session.Safety.{View, view, Good, Inv}
use audio_playback_connector.Device.Session.Steps.{
  on_opened-Inv, on_post_failed-Inv, on_started-Inv, on_state_changed-Inv,
}
use audio_playback_connector.Device.Session.Barriers.{
  complete_close_barrier-Inv, complete_close_cooldown-Inv, on_retry_timer-Inv,
  on_transient_open_retry_timer-Inv,
}
use audio_playback_connector.Device.Session.Operations.{
  cancel_reconnect-Inv, set_reconnect_enabled-Inv, handle_device_removed-Inv,
}

pub Step-Inv : {p : Platform} {s t : Session} → Step p s t → Inv s → Inv t
Step-Inv {p} {s} removed k = handle_device_removed-Inv p s k
Step-Inv {p} {s} (connects op b) k = connect-Inv p op b s k
Step-Inv {p} {s} (disconnects b) k = disconnect-Inv p b s k
Step-Inv {p} {s} cancels k = cancel_reconnect-Inv p s k
Step-Inv {p} {s} (enables_reconnect b) k = set_reconnect_enabled-Inv p b s k
Step-Inv {p} {s} (enables_incoming b) k = set_incoming_enabled-Inv p b s k
Step-Inv {p} {s} suspends k = suspend_session-Inv p s k
Step-Inv {p} {s} resumes k = resume_session-Inv p s k
Step-Inv {p} {s} resumes_idle k = resume_idle-Inv s k
Step-Inv {p} {s} cancels_recovery k = cancel_recovery-Inv s k
Step-Inv {p} {s} renames k = rename-Inv s k
Step-Inv {p} {s} shuts_down k = shutdown-Inv s k
Step-Inv {p} {s} (starts epoch h r) k = on_started-Inv p epoch h r s k
Step-Inv {p} {s} (opens epoch h r b) k = on_opened-Inv p epoch h r b s k
Step-Inv {p} {s} (changes epoch h c) k = on_state_changed-Inv p epoch h c s k
Step-Inv {p} {s} (post_failed epoch h) k = on_post_failed-Inv p epoch h s k
Step-Inv {p} {s} (closes barrier b) k = complete_close_barrier-Inv p barrier b s k
Step-Inv {p} {s} (cools barrier) k = complete_close_cooldown-Inv p barrier true s k
Step-Inv {p} {s} (retries timer op) k = on_retry_timer-Inv p timer op s k
Step-Inv {p} {s} (reopens timer op c) k = on_transient_open_retry_timer-Inv p timer op s c k

pub Reach-Inv : {p : Platform} {s : Session} → Reach p fresh_session s → Inv s
Reach-Inv here = record { good = ground arith }
Reach-Inv (next r s) = Step-Inv s (Reach-Inv r)

-- In every history of a session at most one connection exists: while a connection is being closed the
-- session holds no other, and none was ever created while it held one or a close was in flight.
pub one_connection :
    {p : Platform} {s : Session}
    → Reach p fresh_session s
    → ((s.is_close_in_flight ≡ false) ⊎ (s.connection ≡ none)) × (s.overlap ≡ false)
one_connection {s} r =
    let b = (Reach-Inv r).good.base in
    (
      elim (Bool-cases s.is_close_in_flight) [ inl e ↦ inr (b.solo e) | inr e ↦ inl e ],
      b.no_overlap,
    )

abbrev pub timer_of : ReconnectTimer → ℕ
timer_of (retry_timer t o) = t
timer_of (transient_timer t o) = t

abbrev pub operation_of : ReconnectTimer → ℕ
operation_of (retry_timer t o) = o
operation_of (transient_timer t o) = o

accepted :
    (v : View)
    → Good v
    → v.lifecycle ≡ waiting_for_reconnect
    → (t : ReconnectTimer) × (v.reconnect_timer ≡ some t)
      × (timer_of t ≡ v.timer_epoch)
      × (operation_of t ≡ v.operation_epoch)
      × (v.is_shutdown ≡ false)
      × (v.is_suspended ≡ false)
accepted v h l = elim (Option-cases v.reconnect_timer) [
  | inl e ↦ absurd (ground arith)
  | inr (retry_timer t o, e) ↦
      (retry_timer t o, e, ground arith, ground arith, ground arith, ground arith)
  | inr (transient_timer t o, e) ↦
      (transient_timer t o, e, ground arith, ground arith, ground arith, ground arith)
]

live_timer :
    (a b c d : ℕ) (x y : Bool) (l : Lifecycle)
    → a ≡ b
    → c ≡ d
    → x ≡ false
    → y ≡ false
    → l ≡ waiting_for_reconnect
    → (x || y || not (a == b) || not (c == d) || not (same_lifecycle l waiting_for_reconnect))
      ≡ false
live_timer a b c d x y l e f g h k = ground arith

-- In every history, a session that waits to connect again has a timer whose callback, with the epochs
-- that it carries, is not discarded as stale.
pub waiting_is_live :
    {p : Platform} {s : Session}
    → Reach p fresh_session s
    → s.lifecycle ≡ waiting_for_reconnect
    → (t : ReconnectTimer) × (s.reconnect_timer ≡ some t)
      × (timer_is_stale (timer_of t) (operation_of t) s ≡ false)
waiting_is_live {s} r l =
    let (t, e, a, b, d, u) = accepted (view s) (Reach-Inv r).good l in
    (t, e, live_timer _ _ _ _ _ _ _ a b d u l)

-- In every history, the table of retry delays is read within its bounds, the recursion of
-- StartConnection ends within the two nested calls that the model allows, and BeginClose is never
-- called with nothing to close.
pub delays_and_fuel_suffice :
    {p : Platform} {s : Session}
    → Reach p fresh_session s
    → (s.bad_index ≡ false) × (s.starved ≡ false)
delays_and_fuel_suffice r = let b = (Reach-Inv r).good.base in (b.index_ok, b.fed)

holds_one :
    (v : View)
    → Good v
    → (v.lifecycle ≡ connecting) ⊎ (v.lifecycle ≡ connected)
    → (is_some v.connection ≡ true) × (v.is_close_in_flight ≡ false)
holds_one v h l = ground arith

-- In every history, a session that is connecting or connected holds a connection, which is not being
-- closed.
pub connected_holds_one :
    {p : Platform} {s : Session}
    → Reach p fresh_session s
    → (s.lifecycle ≡ connecting) ⊎ (s.lifecycle ≡ connected)
    → (is_some s.connection ≡ true) × (s.is_close_in_flight ≡ false)
connected_holds_one {s} r l = holds_one (view s) (Reach-Inv r).good l
