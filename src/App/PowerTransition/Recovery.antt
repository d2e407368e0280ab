-- ===== src/App/PowerTransition/Recovery.antt =====
-- What holds in every history of the coordinator
-- (AudioPlaybackConnector2/src/app/PowerTransitionCoordinator.cpp).
use audio_playback_connector.Prelude.{
  ◌<◌, subst, ap, ◌≤◌, ℕ, ◌≡◌, ◌⊎◌, inl, inr, refl, true, false, All, is_some,
}
use audio_playback_connector.Text.{is_empty}
use audio_playback_connector.App.PowerTransition.{Timer, no_timer, ticking, unavailable}
use audio_playback_connector.App.PowerTransition.World.{
  World, Step, Reach, fresh, next, cancels, suspend_begins, suspend_finishes, suspend_fails,
  resume_begins, resume_finishes, resume_fails, ticks, completes, connects,
}
use audio_playback_connector.App.PowerTransition.Invariant.{Inv, Runs, tick-Inv}
use audio_playback_connector.App.PowerTransition.Operations.{
  finish_resume-Inv, cancel-Inv, no_suspend-Inv, begin_suspend-Inv, finish_suspend-Inv,
  begin_resume-Inv, complete-Inv, notify_device_connected-Inv,
}

Runs-cases : (t : Timer) (n : ℕ) → Runs t n → (t ≡ ticking n) ⊎ (t ≡ unavailable)
Runs-cases no_timer n h = absurd h
Runs-cases (ticking g) n h = inl (ap (λ x. ticking x) h)
Runs-cases unavailable n h = inr refl

Step-Inv : {w w' : World} → Step w w' → Inv w.state w.suspending → Inv w'.state w'.suspending
Step-Inv {w} cancels h = cancel-Inv w.state w.suspending
Step-Inv {w} (suspend_begins e) h = begin_suspend-Inv e w.state w.suspending h
Step-Inv {w} (suspend_finishes e g ids k) h =
    finish_suspend-Inv e g ids w.state (subst (λ o. Inv w.state o) k h)
Step-Inv {w} suspend_fails h = no_suspend-Inv w.state w.suspending h
Step-Inv {w} (resume_begins e now) h = begin_resume-Inv e now w.state w.suspending h
Step-Inv {w} (resume_finishes c g n k) h = finish_resume-Inv c g w.state w.suspending h
Step-Inv {w} (resume_fails n k) h = h
Step-Inv {w} ticks h = tick-Inv w.suspending w.state h
Step-Inv {w} (completes g d ids) h = complete-Inv g d ids w.state w.suspending h
Step-Inv {w} (connects id) h = notify_device_connected-Inv id w.state w.suspending h

Reach-Inv : {w : World} → Reach w → Inv w.state w.suspending
Reach-Inv fresh = record {
  few = tt;
  fewer = λ h. tt;
  runs = λ h. absurd (cc);
  held = λ h. absurd (cc);
}
Reach-Inv (next r t) = Step-Inv t (Reach-Inv r)

-- In every history, no device has been tried more than six times since the last suspend, and while a
-- delivery is under way each has been tried fewer than six times.
pub attempts_are_bounded :
    {w : World}
    → Reach w
    → All (λ t. t.attempts ≤ 6) w.state.targets
      × (w.state.delivery_in_flight ≡ true → All (λ t. t.attempts < 6) w.state.targets)
attempts_are_bounded r = ((Reach-Inv r).few, (Reach-Inv r).fewer)

-- In every history, while devices are left to be connected again and a resume has been handled, a
-- schedule ticks for the current generation, unless the platform refused to schedule.
pub recovery_goes_on :
    {w : World}
    → Reach w
    → is_some w.state.reconnect ≡ true
    → w.state.cancelled ≡ false
    → is_empty w.state.targets ≡ false
    → (w.state.timer ≡ ticking w.state.generation) ⊎ (w.state.timer ≡ unavailable)
recovery_goes_on {w} r c k t = Runs-cases w.state.timer _ ((Reach-Inv r).runs c k t)
