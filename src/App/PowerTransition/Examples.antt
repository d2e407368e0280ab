-- ===== src/App/PowerTransition/Examples.antt =====
-- A recovery after a sleep, and the theorems applied to it
-- (AudioPlaybackConnector2/src/app/PowerTransitionCoordinator.cpp).
use audio_playback_connector.Prelude.{
  ◌≤◌, ◌<◌, ◌≡◌, ◌⊎◌, refl, true, false, none, some, [], ◌∷◌, All,
}
use audio_playback_connector.Text.{wide}
use audio_playback_connector.Text.Utf16.{WString, WString-discrete}
use audio_playback_connector.Device.Session.Data.{advance}
use audio_playback_connector.App.PowerTransition.{
  Coordinator, no_timer, ticking, unavailable, begin_suspend, finish_suspend, begin_resume,
  finish_resume, begin_cycle, add_targets, reset_attempts, is_target, tick, deliver, complete,
  eligible, drop_exhausted, record_attempts,
}
use audio_playback_connector.App.PowerTransition.World.{
  Reach, fresh, next, suspend_begins, suspend_finishes, resume_begins, resume_finishes,
}
use audio_playback_connector.App.PowerTransition.Recovery.{attempts_are_bounded, recovery_goes_on}
use audio_playback_connector.App.PowerTransition.Ends.{no_tries, round, rounds, recovery_ends}

abbrev headset : WString
headset = wide "h"

-- The headset played when the computer went to sleep, and is waited for after it woke up.
abbrev recovering : Coordinator
recovering = record {
  power_suspended = false;
  last_resume_handled_at = some 5000;
  timer = ticking 1;
  targets = record { id = headset; attempts = 0 } ∷ [];
  generation = 1;
  delivery_sequence = 0;
  reconnect = some true;
  delivery_in_flight = false;
  cancelled = false;
}

Reach-recovering : Reach (record { state = recovering; suspending = none; resuming = 0 })
unfolding begin_suspend finish_suspend begin_resume finish_resume begin_cycle add_targets
    reset_attempts is_target advance
Reach-recovering =
    next
      (next
        (next (next fresh (suspend_begins false)) (suspend_finishes false 1 (headset ∷ []) refl))
        (resume_begins false 5000))
      (resume_finishes true true 0 refl)

-- One round hands the headset out once.
one_round : (round (λ ids. ids) recovering).targets ≡ record { id = headset; attempts = 1 } ∷ []
unfolding round tick deliver complete eligible drop_exhausted record_attempts WString-discrete
    advance
one_round = refl

attempts_are_bounded_example :
    All (λ t. t.attempts ≤ 6) recovering.targets
    × (recovering.delivery_in_flight ≡ true → All (λ t. t.attempts < 6) recovering.targets)
attempts_are_bounded_example = attempts_are_bounded Reach-recovering

recovery_goes_on_example : (recovering.timer ≡ ticking 1) ⊎ (recovering.timer ≡ unavailable)
recovery_goes_on_example = recovery_goes_on Reach-recovering refl refl refl

-- The reconnect callback starts whatever it is handed.
recovery_ends_example :
    let begun = (finish_resume true true recovering).state in
    ((rounds (λ ids. ids) 7 begun).targets ≡ [])
    × ((rounds (λ ids. ids) 7 begun).timer ≡ no_timer)
    × ((round no_tries begun).targets ≡ drop_exhausted recovering.targets)
recovery_ends_example = recovery_ends (λ ids. ids) recovering (λ ids id h. h) refl refl
