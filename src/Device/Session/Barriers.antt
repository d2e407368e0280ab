-- ===== src/Device/Session/Barriers.antt =====
-- Every callback of a close and of the timers keeps the invariant.
use audio_playback_connector.Prelude.{
  true_of_flip, ℕ, ◌≤◌, ◌≡◌, refl, Bool, true, false, not, ◌&&◌, ◌||◌, none, some, arith, ◌==◌,
}
use audio_playback_connector.Device.Session.Data.{
  Session, Platform, Lifecycle, transient_timer, waiting_for_reconnect, failed, automatic_reconnect,
  same_lifecycle,
}
use audio_playback_connector.Device.Session.Events.{
  start, complete_close_cooldown, complete_close_barrier, timer_is_stale, on_retry_timer,
  on_transient_open_retry_timer,
}
use audio_playback_connector.Device.Session.Safety.{or_false, View, view, BaseOk, Good, Inv, if-Inv}
use audio_playback_connector.Device.Session.Retrying.{without_timer-BaseOk}
use audio_playback_connector.Device.Session.Starts.{begin_create-Inv, start_waiting-Inv}
use audio_playback_connector.Device.Session.Continues.{ready, continue-Inv}
use audio_playback_connector.Device.Session.Steps.{now_current}

cooled-Good :
    (v : View)
    → Good v
    → v.is_close_in_flight ≡ true
    → v.is_abandoned ≡ false
    → Good (record v { is_close_cooldown = false; is_close_in_flight = false })
cooled-Good v h f a = ground arith

cooled-BaseOk :
    (v : View)
    → Good v
    → v.is_close_in_flight ≡ true
    → BaseOk
        (record v { is_close_cooldown = false; is_close_in_flight = false; is_abandoned = false })
      × (v.connection ≡ none)
      × (v.attempts ≤ 9)
cooled-BaseOk v h f = ground arith

pub complete_close_cooldown-Inv :
    (p : Platform) (barrier : ℕ) (b : Bool) (s : Session)
    → Inv s
    → Inv (complete_close_cooldown p barrier b s)
unfolding complete_close_cooldown
complete_close_cooldown-Inv p barrier b s k =
    if-Inv
      (s.is_shutdown
        || not s.is_close_in_flight
        || not s.is_close_cooldown
        || not (barrier == s.close_barrier_epoch))
      (λ _. k)
      (λ e.
        let g =
          or_false s.is_shutdown (not s.is_close_in_flight)
            (or_false _ (not s.is_close_cooldown)
              (or_false _ (not (barrier == s.close_barrier_epoch)) e).0).0 in
        let f = true_of_flip _ g.1 in
        let m = cooled-BaseOk (view s) k.good f in
        continue-Inv p s.operation_epoch b _ m.0
          (λ a. record { good = cooled-Good (view s) k.good f a })
          (now_current s.operation_epoch s.is_shutdown g.0) refl m.1 m.2)

cooling-Good :
    (v : View) → Good v → v.is_close_in_flight ≡ true → Good (record v { is_close_cooldown = true })
cooling-Good v h f = ground arith

timed_out-Good :
    (v : View)
    → Good v
    → v.is_close_in_flight ≡ true
    → Good (record v { lifecycle = failed; is_abandoned = true })
timed_out-Good v h f = ground arith

pub complete_close_barrier-Inv :
    (p : Platform) (barrier : ℕ) (b : Bool) (s : Session)
    → Inv s
    → Inv (complete_close_barrier p barrier b s)
unfolding complete_close_barrier
complete_close_barrier-Inv p barrier b s k =
    if-Inv
      (s.is_shutdown
        || not s.is_close_in_flight
        || s.is_close_cooldown
        || not (barrier == s.close_barrier_epoch))
      (λ _. k)
      (λ e.
        let f =
          true_of_flip _
            (or_false s.is_shutdown (not s.is_close_in_flight)
              (or_false _ s.is_close_cooldown
                (or_false _ (not (barrier == s.close_barrier_epoch)) e).0).0).1 in
        if-Inv b (λ _. record { good = timed_out-Good (view s) k.good f })
          (λ _.
            if-Inv (p.schedules s.calls) (λ _. record { good = cooling-Good (view s) k.good f })
              (λ _.
                complete_close_cooldown-Inv p barrier false _
                  (record { good = cooling-Good (view s) k.good f }))))

fresh_timer :
    (t o te oe : ℕ) (d u : Bool) (l : Lifecycle)
    → (d || u || not (t == te) || not (o == oe) || not (same_lifecycle l waiting_for_reconnect))
      ≡ false
    → (d ≡ false) × (u ≡ false) × (t ≡ te) × (o ≡ oe) × (l ≡ waiting_for_reconnect)
fresh_timer t o te oe d u l e = ground arith

idle_waiting :
    (v : View) → Good v → v.lifecycle ≡ waiting_for_reconnect → v.is_close_in_flight ≡ false
idle_waiting v h l = ground arith

transient_waiting :
    (v : View) (t o : ℕ)
    → Good v
    → v.lifecycle ≡ waiting_for_reconnect
    → v.reconnect_timer ≡ some (transient_timer t o)
    → (v.connection ≡ none) × (v.attempts ≤ 9)
transient_waiting v t o h l e = ground arith

live_create :
    (a b : ℕ) (d u : Bool)
    → a ≡ b
    → d ≡ false
    → u ≡ false
    → (not (not d && (a == b)) || d || u) ≡ true
    → ⊥
live_create a b d u e f g h = ground arith

pub on_retry_timer-Inv :
    (p : Platform) (timer op : ℕ) (s : Session) → Inv s → Inv (on_retry_timer p timer op s)
unfolding on_retry_timer
on_retry_timer-Inv p timer op s k =
    if-Inv (timer_is_stale timer op s) (λ _. k)
      (λ e.
        let g =
          fresh_timer timer op s.timer_epoch s.operation_epoch s.is_shutdown s.is_suspended
            s.lifecycle e in
        start_waiting-Inv p automatic_reconnect s.open_immediately _
          (without_timer-BaseOk (view s) none s.lifecycle s.timer_epoch k.good.base) g.4 g.0 g.1
          (idle_waiting (view s) k.good g.4))

pub on_transient_open_retry_timer-Inv :
    (p : Platform) (timer op : ℕ) (s : Session)
    → (timer ≡ s.timer_epoch → s.reconnect_timer ≡ some (transient_timer timer op))
    → Inv s
    → Inv (on_transient_open_retry_timer p timer op s)
unfolding on_transient_open_retry_timer
on_transient_open_retry_timer-Inv p timer op s c k =
    if-Inv (timer_is_stale timer op s) (λ _. k)
      (λ e.
        let g =
          fresh_timer timer op s.timer_epoch s.operation_epoch s.is_shutdown s.is_suspended
            s.lifecycle e in
        let m = transient_waiting (view s) timer op k.good g.4 (c g.2) in
        begin_create-Inv p (start p) op _ (ready p _)
          (without_timer-BaseOk (view s) none s.lifecycle s.timer_epoch k.good.base)
          (λ x.
            absurd (live_create op s.operation_epoch s.is_shutdown s.is_suspended g.3 g.0 g.1 x))
          m.0 (idle_waiting (view s) k.good g.4) m.1)
