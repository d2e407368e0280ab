-- ===== src/Device/Examples.antt =====
-- Runs of the device modules, and the theorems applied to them.
use audio_playback_connector.Prelude.{◌⊎◌, false, ◌≡◌, refl, true, none, some}
use audio_playback_connector.Device.Session.Histories.{
  one_connection, waiting_is_live, delays_and_fuel_suffice, timer_of, operation_of,
}
use audio_playback_connector.Device.Session.Stranded.{cancelled_reopen_strands}
use audio_playback_connector.Device.Reconnect.{
  evaluate, evaluate_attempt, evaluate-Promised, Promised, ReconnectPolicyInput, connection_loss,
}
use audio_playback_connector.Device.Session.Data.{
  Session, closed, manual_connect, manual_reconnect, Platform, ReconnectTimer, connected,
  disconnecting, waiting_for_reconnect, success, timed_out, advance, fresh_session,
}
use audio_playback_connector.Device.Session.Retry.{schedule_timer, schedule_reconnect}
use audio_playback_connector.Device.Session.Close.{close_connection, begin_close}
use audio_playback_connector.Device.Session.Connect.{
  complete_failure, start_created, begin_create, start_body, start_connection,
}
use audio_playback_connector.Device.Session.Events.{
  on_started, on_opened, connection_lost, on_state_changed, complete_close_cooldown,
  complete_close_barrier, timer_is_stale,
}
use audio_playback_connector.Device.Session.Policy.{cancel_reconnect}
use audio_playback_connector.Device.Session.Control.{connect}
use audio_playback_connector.Device.Session.World.{
  Reach, here, next, connects, starts, opens, changes,
}

-- A platform that grants everything.
abbrev granting : Platform
granting = record {
  creates = λ n. true;
  registers = λ n. some 7;
  starts = λ n. true;
  opens = λ n. true;
  schedules = λ n. true;
}

-- A device is connected.
asked : Session
asked = connect granting manual_connect true fresh_session

up : Session
up = on_opened granting 1 0 success false (on_started granting 1 0 success asked)

Reach-up : Reach granting fresh_session up
unfolding up asked
Reach-up =
    next (next (next here (connects manual_connect true)) (starts 1 0 success))
      (opens 1 0 success false)

up_is_connected : (up.lifecycle ≡ connected) × (up.connection ≡ some 0) × (up.operation_epoch ≡ 1)
unfolding up asked connect on_started on_opened start_connection start_body begin_create
    start_created advance
up_is_connected = (refl, refl, refl)

-- Another connect closes the connection first.
replaced : Session
replaced = connect granting manual_reconnect true up

Reach-replaced : Reach granting fresh_session replaced
unfolding replaced
Reach-replaced = next Reach-up (connects manual_reconnect true)

one_connection_example :
    ((replaced.is_close_in_flight ≡ false) ⊎ (replaced.connection ≡ none))
    × (replaced.overlap ≡ false)
one_connection_example = one_connection Reach-replaced

replaced_is_closing : (replaced.is_close_in_flight ≡ true) × (replaced.closing_connection ≡ some 0)
unfolding replaced up asked connect on_started on_opened start_connection start_body begin_create
    start_created begin_close close_connection advance
replaced_is_closing = (refl, refl)

-- The connection is lost, and a retry waits.
lost : Session
lost = on_state_changed granting 1 0 closed up

Reach-lost : Reach granting fresh_session lost
unfolding lost
Reach-lost = next Reach-up (changes 1 0 closed)

lost_is_waiting : lost.lifecycle ≡ waiting_for_reconnect
unfolding lost up asked connect on_started on_opened on_state_changed connection_lost
    schedule_reconnect schedule_timer evaluate evaluate_attempt start_connection start_body
    begin_create start_created advance
lost_is_waiting = refl

waiting_is_live_example :
    (t : ReconnectTimer) × (lost.reconnect_timer ≡ some t)
    × (timer_is_stale (timer_of t) (operation_of t) lost ≡ false)
waiting_is_live_example = waiting_is_live Reach-lost lost_is_waiting

delays_and_fuel_suffice_example : (lost.bad_index ≡ false) × (lost.starved ≡ false)
delays_and_fuel_suffice_example = delays_and_fuel_suffice Reach-lost

-- The open timed out, and its connection is closed and cooling down.
reopening : Session
reopening =
    complete_close_barrier granting 1 false
      (on_opened granting 1 0 timed_out true (on_started granting 1 0 success asked))

cancelled_reopen_strands_example :
    let t =
      complete_close_cooldown granting reopening.close_barrier_epoch true
        (cancel_reconnect granting reopening) in
    (t.lifecycle ≡ disconnecting)
    × (t.is_close_in_flight ≡ false)
    × (connect granting manual_connect true t ≡ t)
unfolding reopening asked connect on_started on_opened complete_close_barrier complete_failure
    start_connection start_body begin_create start_created begin_close close_connection advance
cancelled_reopen_strands_example =
    cancelled_reopen_strands granting manual_connect true reopening refl refl refl refl refl refl
      refl refl

abbrev third_loss : ReconnectPolicyInput
third_loss = record { request = connection_loss; completed_attempts = 3; is_blocked = false }

evaluate-Promised_example : Promised third_loss (evaluate third_loss)
evaluate-Promised_example = evaluate-Promised third_loss
