-- ===== src/Device/Session/Commands.antt =====
-- The public operations that connect, disconnect, suspend and resume keep the invariant.
use audio_playback_connector.Device.Session.Control.{
  rename, supersede_recovery, is_manual, connect, disconnect, set_incoming_enabled,
}
use audio_playback_connector.Prelude.{
  true_of_flip, ℕ, ◌≡◌, refl, Bool, true, false, not, ◌&&◌, ◌||◌, Option, none, arith,
  if◌then◌else◌, is_some,
}
use audio_playback_connector.Device.Session.Data.{
  Session, Platform, OperationKind, ReconnectTimer, idle, disconnecting, waiting_for_reconnect,
  incoming_enable, success, cancelled, unspecified, to_idle, replace, suspend, same_lifecycle,
}
use audio_playback_connector.Device.Session.Safety.{View, view, BaseOk, Good, Inv, if-Inv}
use audio_playback_connector.Device.Session.Closing.{close-Inv}
use audio_playback_connector.Device.Session.Power.{
  suspend_session, resume_session, resume_idle_after_power_transition,
  cancel_power_transition_recovery, shutdown,
}
use audio_playback_connector.Device.Session.Starts.{start_connection-Inv}
use audio_playback_connector.Device.Session.Continues.{start_after_resume-Inv}
use audio_playback_connector.Device.Session.Operations.{moved-BaseOk, rests, or_comm, some_right}

unsuspended : (v : View) → Good v → Good (record v { is_suspended = false })
unsuspended v h = ground arith

superseded :
    {t e : ℕ} {o : Option ReconnectTimer} (v : View)
    → BaseOk v
    → BaseOk (record v {
      is_suspended = false;
      attempts = 0;
      timer_epoch = t;
      operation_epoch = e;
      lifecycle = disconnecting;
      reconnect_timer = o;
    })
superseded v h = ground arith

pub supersede_recovery-Inv :
    (p : Platform) (op : OperationKind) (b : Bool) (s : Session)
    → Inv s
    → Inv (supersede_recovery p op b s)
unfolding supersede_recovery
supersede_recovery-Inv p op b s k =
    if-Inv (not s.is_close_in_flight)
      (λ _. start_connection-Inv p op b _ (record { good = unsuspended (view s) k.good }))
      (λ f.
        if-Inv s.is_close_continuation_abandoned
          (λ _. record { good = unsuspended (view s) k.good })
          (λ _.
            close-Inv p _ replace success false false unspecified _
              (superseded (view s) k.good.base) refl
              (some_right _ (is_some s.connection) (true_of_flip _ f))))

pub connect-Inv :
    (p : Platform) (op : OperationKind) (b : Bool) (s : Session) → Inv s → Inv (connect p op b s)
unfolding connect
connect-Inv p op b s k =
    if-Inv s.is_shutdown (λ _. k)
      (λ _.
        if-Inv (s.is_suspended && is_manual op) (λ _. supersede_recovery-Inv p op b s k)
          (λ _. start_connection-Inv p op b s k))

neither : (a b : Bool) → (not a && not b) ≡ false → (b || a) ≡ true
neither a b e = ground arith

-- A session with an answer.
record Kept (x : Session × Bool) : Type 0 where
  pub kept : Inv x.0

if-Kept :
    (b : Bool) {x y : Session × Bool}
    → (b ≡ true → Kept x)
    → (b ≡ false → Kept y)
    → Kept (if b then x else y)
if-Kept true f g = f refl
if-Kept false f g = g refl

disconnect-Kept : (p : Platform) (b : Bool) (s : Session) → Inv s → Kept (disconnect p b s)
unfolding disconnect
disconnect-Kept p b s k =
    if-Kept s.is_shutdown (λ _. record { kept = k })
      (λ _.
        if-Kept (s.is_close_in_flight && s.is_close_continuation_abandoned)
          (λ _. record { kept = k })
          (λ _.
            if-Kept (not (is_some s.connection) && not s.is_close_in_flight)
              (λ _. record {
                kept =
                    if-Inv (b && s.is_incoming_enabled && not s.is_suspended)
                      (λ _.
                        start_connection-Inv p incoming_enable false _
                          (record { good = rests (view s) k.good.base }))
                      (λ _. record { good = rests (view s) k.good.base });
              })
              (λ e. record {
                kept =
                    close-Inv p _ to_idle success false false unspecified _
                      (moved-BaseOk (view s) k.good.base) refl (neither _ _ e);
              })))

pub disconnect-Inv : (p : Platform) (b : Bool) (s : Session) → Inv s → Inv (disconnect p b s).0
disconnect-Inv p b s k = (disconnect-Kept p b s k).kept

pub set_incoming_enabled-Inv :
    (p : Platform) (b : Bool) (s : Session) → Inv s → Inv (set_incoming_enabled p b s)
unfolding set_incoming_enabled
set_incoming_enabled-Inv p b s k =
    if-Inv s.is_shutdown (λ _. k)
      (λ _.
        if-Inv
          (not b
            && (not s.open_immediately
                && (is_some s.connection
                    || s.is_close_in_flight
                    || same_lifecycle s.lifecycle waiting_for_reconnect)))
          (λ _.
            disconnect-Inv p false (record s { is_incoming_enabled = b })
              (record { good = k.good }))
          (λ _.
            if-Inv (b && not (is_some s.connection) && not s.is_suspended)
              (λ _. start_connection-Inv p incoming_enable false _ (record { good = k.good }))
              (λ _. record { good = k.good })))

pub suspend_session-Inv : (p : Platform) (s : Session) → Inv s → Inv (suspend_session p s)
unfolding suspend_session
suspend_session-Inv p s k =
    if-Inv (s.is_shutdown || s.is_suspended) (λ _. k)
      (λ _.
        if-Inv (is_some s.connection || s.is_close_in_flight)
          (λ e.
            close-Inv p _ suspend cancelled false false unspecified _
              (moved-BaseOk (view s) k.good.base) refl
              (or_comm (is_some s.connection) s.is_close_in_flight e))
          (λ _. record { good = rests (view s) k.good.base }))

pub resume_session-Inv : (p : Platform) (s : Session) → Inv s → Inv (resume_session p s)
unfolding resume_session
resume_session-Inv p s k =
    if-Inv (s.is_shutdown || not s.is_suspended) (λ _. k)
      (λ _.
        if-Inv s.is_suspend_close_pending (λ _. record { good = k.good })
          (λ _. start_after_resume-Inv p _ (record { good = unsuspended (view s) k.good })))

pub resume_idle-Inv : (s : Session) → Inv s → Inv (resume_idle_after_power_transition s)
unfolding resume_idle_after_power_transition
resume_idle-Inv s k =
    if-Inv
      (s.is_shutdown
        || not s.is_suspended
        || s.is_suspend_close_pending
        || s.resume_required
        || s.resume_requested
        || s.is_incoming_enabled)
      (λ _. k) (λ _. record { good = unsuspended (view s) k.good })

pub cancel_recovery-Inv : (s : Session) → Inv s → Inv (cancel_power_transition_recovery s)
unfolding cancel_power_transition_recovery
cancel_recovery-Inv s k =
    if-Inv (s.is_shutdown || not s.is_suspended) (λ _. k)
      (λ _. record { good = unsuspended (view s) k.good })

shut-Good :
    {t e : ℕ} (v : View)
    → BaseOk v
    → Good (record v {
      connection = none;
      reconnect_timer = none;
      operation_epoch = e;
      timer_epoch = t;
      lifecycle = idle;
      is_shutdown = true;
      is_close_in_flight = false;
      is_close_cooldown = false;
      is_abandoned = false;
    })
shut-Good v h = ground arith

pub shutdown-Inv : (s : Session) → Inv s → Inv (shutdown s)
unfolding shutdown
shutdown-Inv s k =
    if-Inv s.is_shutdown (λ _. k) (λ _. record { good = shut-Good (view s) k.good.base })

pub rename-Inv : (s : Session) → Inv s → Inv (rename s)
unfolding rename
rename-Inv s k = if-Inv s.is_shutdown (λ _. k) (λ _. record { good = k.good })
