-- ===== src/Device/Session/Safety.antt =====
-- What holds of a session between any two of its operations and callbacks.
use audio_playback_connector.Prelude.{
  ℕ, ◌≤◌, ◌≡◌, refl, ◌⊎◌, Bool, true, false, ◌&&◌, ◌||◌, Option, none, some, arith, if◌then◌else◌,
  is_some,
}
use audio_playback_connector.Device.Session.Data.{
  Session, Lifecycle, ReconnectTimer, retry_timer, transient_timer, connecting, connected,
  waiting_for_reconnect, incoming_enable,
}
use audio_playback_connector.Device.Session.Retry.{Start}

pub and_right : (a b : Bool) → (a && b) ≡ true → b ≡ true
and_right a b e = ground arith

pub or_false : (a b : Bool) → (a || b) ≡ false → (a ≡ false) × (b ≡ false)
or_false a b e = ground arith

-- The fields that the invariant reads.
pub record View : Type 0 where
  pub has_device_id : Bool
  pub connection : Option ℕ
  pub reconnect_timer : Option ReconnectTimer
  pub operation_epoch : ℕ
  pub timer_epoch : ℕ
  pub attempts : ℕ
  pub lifecycle : Lifecycle
  pub is_suspended : Bool
  pub is_shutdown : Bool
  pub is_close_in_flight : Bool
  pub is_close_cooldown : Bool
  pub is_abandoned : Bool
  pub overlap : Bool
  pub bad_index : Bool
  pub starved : Bool

abbrev pub view : Session → View
view s = record {
  has_device_id = s.has_device_id;
  connection = s.connection;
  reconnect_timer = s.reconnect_timer;
  operation_epoch = s.operation_epoch;
  timer_epoch = s.timer_epoch;
  attempts = s.transient_open_retry_attempts;
  lifecycle = s.lifecycle;
  is_suspended = s.is_suspended;
  is_shutdown = s.is_shutdown;
  is_close_in_flight = s.is_close_in_flight;
  is_close_cooldown = s.is_close_cooldown;
  is_abandoned = s.is_close_continuation_abandoned;
  overlap = s.overlap;
  bad_index = s.bad_index;
  starved = s.starved;
}

-- The timer's callback would be accepted, and a timer to open again finds no connection.
abbrev pub TimerOk : View → Option ReconnectTimer → Type 0
TimerOk v none = ⊥
TimerOk v (some (retry_timer timer operation)) =
    (timer ≡ v.timer_epoch) × (operation ≡ v.operation_epoch)
TimerOk v (some (transient_timer timer operation)) =
    (timer ≡ v.timer_epoch)
    × (operation ≡ v.operation_epoch)
    × (v.connection ≡ none)
    × (v.attempts ≤ 9)

abbrev pub LifeOk : View → Lifecycle → Type 0
LifeOk v connecting = is_some v.connection ≡ true
LifeOk v connected = is_some v.connection ≡ true
LifeOk v waiting_for_reconnect =
    TimerOk v v.reconnect_timer
    × (v.is_close_in_flight ≡ false)
    × (v.is_shutdown ≡ false)
    × (v.is_suspended ≡ false)
LifeOk v _ = Unit

-- The part that does not speak of the lifecycle.
pub record BaseOk (v : View) : Type 0 where
  pub solo : v.is_close_in_flight ≡ true → v.connection ≡ none
  pub cooling : v.is_close_cooldown ≡ true → v.is_close_in_flight ≡ true
  pub abandoned : v.is_abandoned ≡ true → v.is_close_in_flight ≡ true
  pub attempts_ok :
      (v.attempts ≤ 9)
      ⊎ ((v.attempts ≡ 10) × (v.connection ≡ none) × (v.is_close_in_flight ≡ false))
  pub no_overlap : v.overlap ≡ false
  pub index_ok : v.bad_index ≡ false
  pub fed : v.starved ≡ false
  pub named : v.has_device_id ≡ true

pub record Good (v : View) : Type 0 where
  pub base : BaseOk v
  pub life : LifeOk v v.lifecycle

abbrev pub Base : Session → Type 0
Base s = BaseOk (view s)

pub record Inv (s : Session) : Type 0 where
  pub good : Good (view s)

-- A choice keeps the invariant where both of its branches do.
pub if-Inv :
    (b : Bool) {x y : Session} → (b ≡ true → Inv x) → (b ≡ false → Inv y) → Inv (if b then x else y)
if-Inv true f g = f refl
if-Inv false f g = g refl

-- The listener can be started again, where that is asked.
abbrev pub Ready : Start → Bool → Type 0
Ready restart b = b ≡ true → (t : Session) → Inv t → Inv (restart incoming_enable false t)
