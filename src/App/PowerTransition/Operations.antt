-- ===== src/App/PowerTransition/Operations.antt =====
-- The operations of the coordinator and its invariant
-- (AudioPlaybackConnector2/src/app/PowerTransitionCoordinator.cpp).
use audio_playback_connector.Prelude.{
  ℕ, ◌∙◌, refl, sym, Bool, not, ◌&&◌, ◌||◌, Option, none, some, List, arith, ◌==◌,
}
use audio_playback_connector.Text.{is_empty}
use audio_playback_connector.Text.Utf16.{WString}
use audio_playback_connector.App.PowerTransition.{
  Coordinator, cancel, begin_suspend, finish_suspend, begin_resume, is_duplicate, finish_resume,
  complete, notify_device_connected, remove_target,
}
use audio_playback_connector.App.PowerTransition.World.{latest}
use audio_playback_connector.App.PowerTransition.Targets.{
  Few, Fewer, All-Few, begin_cycle-Fewer, record_attempts-Few, remove_target-All,
  is_empty-record_attempts, remove_target-is_empty,
}
use audio_playback_connector.App.PowerTransition.Invariant.{
  Inv, if-Inv, if-delivers, if-begins, if-begins_resume, going,
}

pub finish_resume-Inv :
    (callable granted : Bool) (s : Coordinator) (o : Option ℕ)
    → Inv s o
    → Inv (finish_resume callable granted s).state o
unfolding finish_resume
finish_resume-Inv callable granted s o h =
    if-delivers _ _ (s.cancelled || is_empty s.targets)
      (λ e. record {
        few = h.few;
        fewer = h.fewer;
        runs = λ r c t. absurd (ground arith);
        held = h.held;
      })
      (λ e.
        if-delivers _ _ granted
          (λ f. record {
            few = h.few;
            fewer = λ k. absurd (cc);
            runs = λ r c t. refl;
            held = λ k. absurd (ground (arith, (h.held k).0));
          })
          (λ f. going s.generation _ o (record {
            few = h.few;
            fewer = λ k. absurd (cc);
            runs = λ r c t. tt;
            held = λ k. absurd (ground (arith, (h.held k).0));
          })))

pub cancel-Inv : (s : Coordinator) (o : Option ℕ) → Inv (cancel s) o
unfolding cancel
cancel-Inv s o = record {
  few = tt;
  fewer = λ h. tt;
  runs = λ h. absurd (cc);
  held = λ h. (refl, refl);
}

pub no_suspend-Inv : (s : Coordinator) (o : Option ℕ) → Inv s o → Inv s none
no_suspend-Inv s o h = record {
  few = h.few;
  fewer = h.fewer;
  runs = h.runs;
  held = λ k. absurd (cc);
}

pub begin_suspend-Inv :
    (exiting : Bool) (s : Coordinator) (o : Option ℕ)
    → Inv s o
    → Inv (begin_suspend exiting s).0 (latest (begin_suspend exiting s).1 o)
unfolding begin_suspend
begin_suspend-Inv exiting s o h =
    if-begins o _ _ (exiting || s.power_suspended) (λ e. h)
      (λ e. record {
        few = h.few;
        fewer = λ k. absurd (cc);
        runs = λ r. absurd (cc);
        held = λ k. (refl, refl);
      })

pub finish_suspend-Inv :
    (exiting : Bool) (g : ℕ) (ids : List WString) (s : Coordinator)
    → Inv s (some g)
    → Inv (finish_suspend exiting g ids s) none
unfolding finish_suspend
finish_suspend-Inv exiting g ids s h =
    if-Inv (not (s.generation == g) || exiting) (λ e. no_suspend-Inv s (some g) h)
      (λ e. record {
        few = All-Few _ (begin_cycle-Fewer ids s.targets);
        fewer = λ k. begin_cycle-Fewer ids s.targets;
        runs = λ r. absurd (ground (arith, (h.held refl).1));
        held = λ k. absurd (cc);
      })

pub begin_resume-Inv :
    (exiting : Bool) (now : ℕ) (s : Coordinator) (o : Option ℕ)
    → Inv s o
    → Inv (begin_resume exiting now s).0 o
unfolding begin_resume
begin_resume-Inv exiting now s o h =
    if-begins_resume _ _
      (exiting || not s.power_suspended && is_duplicate now s.last_resume_handled_at) (λ e. h)
      (λ e. record { few = h.few; fewer = h.fewer; runs = h.runs; held = h.held })

pub complete-Inv :
    (g delivery : ℕ) (ids : List WString) (s : Coordinator) (o : Option ℕ)
    → Inv s o
    → Inv (complete g delivery ids s) o
unfolding complete
complete-Inv g delivery ids s o h =
    if-Inv
      (s.cancelled
        || not (s.generation == g)
        || not (s.delivery_sequence == delivery)
        || not s.delivery_in_flight)
      (λ e. h)
      (λ e. record {
        few = record_attempts-Few ids s.targets (h.fewer (ground arith));
        fewer = λ k. absurd (cc);
        runs = λ r c t. h.runs r c (sym (is_empty-record_attempts ids s.targets) ∙ t);
        held = h.held;
      })

pub notify_device_connected-Inv :
    (id : WString) (s : Coordinator) (o : Option ℕ) → Inv s o → Inv (notify_device_connected id s) o
unfolding notify_device_connected
notify_device_connected-Inv id s o h =
    if-Inv (is_empty id) (λ e. h)
      (λ e.
        if-Inv (is_empty (remove_target id s.targets))
          (λ f. record {
            few = remove_target-All Few id s.targets h.few;
            fewer = λ k. remove_target-All Fewer id s.targets (h.fewer k);
            runs = λ r c t. absurd (cc);
            held = h.held;
          })
          (λ f. record {
            few = remove_target-All Few id s.targets h.few;
            fewer = λ k. remove_target-All Fewer id s.targets (h.fewer k);
            runs = λ r c t. h.runs r c (remove_target-is_empty id s.targets t);
            held = h.held;
          }))
