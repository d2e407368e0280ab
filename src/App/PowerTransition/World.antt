-- ===== src/App/PowerTransition/World.antt =====
-- The coordinator's history: its operations, the ticks of its schedule and the completions of its
-- deliveries, in any order (AudioPlaybackConnector2/src/app/PowerTransitionCoordinator.cpp). A suspend and
-- a resume call others in their middle, so each is two steps.
use audio_playback_connector.Prelude.{ℕ, suc, ◌≡◌, Bool, true, false, Option, none, some, List}
use audio_playback_connector.Text.Utf16.{WString}
use audio_playback_connector.App.PowerTransition.{
  Coordinator, fresh_coordinator, cancel, begin_suspend, finish_suspend, begin_resume,
  finish_resume, tick, complete, notify_device_connected,
}

-- The coordinator, the generation of the suspend under way, and the number of resumes under way that
-- a suspend matched. An outer suspend that an inner one overtook holds an old generation and does no
-- more.
pub record World : Type 0 where
  pub state : Coordinator
  pub suspending : Option ℕ
  pub resuming : ℕ

abbrev pub latest : Option ℕ → Option ℕ → Option ℕ
latest none old = old
latest (some generation) old = some generation

abbrev pub count_if : Bool → ℕ → ℕ
count_if matched n = elim matched [ true ↦ suc n | false ↦ n ]

pub data Step (w : World) : World → Type 0 where
  cancels : Step w (record w { state = cancel w.state })
  suspend_begins :
      (exiting : Bool)
      → Step w (record w {
        state = (begin_suspend exiting w.state).0;
        suspending = latest (begin_suspend exiting w.state).1 w.suspending;
      })
  suspend_finishes :
      (exiting : Bool) (generation : ℕ) (ids : List WString)
      → w.suspending ≡ some generation
      → Step w
          (record w { state = finish_suspend exiting generation ids w.state; suspending = none })
  suspend_fails : Step w (record w { suspending = none })
  resume_begins :
      (exiting : Bool) (now : ℕ)
      → Step w (record w {
        state = (begin_resume exiting now w.state).0;
        resuming = count_if (begin_resume exiting now w.state).1 w.resuming;
      })
  resume_finishes :
      (callable granted : Bool) (n : ℕ)
      → w.resuming ≡ suc n
      → Step w (record w { state = (finish_resume callable granted w.state).state; resuming = n })
  resume_fails : (n : ℕ) → w.resuming ≡ suc n → Step w (record w { resuming = n })
  ticks : Step w (record w { state = (tick w.state).state })
  completes :
      (generation delivery : ℕ) (ids : List WString)
      → Step w (record w { state = complete generation delivery ids w.state })
  connects : (id : WString) → Step w (record w { state = notify_device_connected id w.state })

abbrev pub fresh_world : World
fresh_world = record { state = fresh_coordinator; suspending = none; resuming = 0 }

pub data Reach : World → Type 0 where
  fresh : Reach fresh_world
  next : {w w' : World} → Reach w → Step w w' → Reach w'
