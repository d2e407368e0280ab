-- ===== src/Control/Examples.antt =====
-- Runs of the control surface, and the theorems applied to them.
use audio_playback_connector.Prelude.{◌↔◌, true, ℕ, [], ◌∷◌, false, refl, ◌≡◌, get_elem?, ◌⊎◌, ◌≤◌}
use audio_playback_connector.Control.Targets.{TargetCandidateView, find_auto_target_matches}
use audio_playback_connector.Control.Targets.Ranks.{listed, find_lists_matches}
use audio_playback_connector.Control.Targets.Meaning.{NamesAt}
use audio_playback_connector.Control.ActionGate.{fresh_gate, try_begin, try_cancel}
use audio_playback_connector.Control.ActionGate.Race.{
  World, fresh_world, after_begin, after_cancel, began, asked_to_cancel, Reach, here, next,
  runs_once,
}

-- The action begins, and a cancellation comes too late.
begun : World
begun = after_begin fresh_world (try_begin fresh_gate)

late : World
late = after_cancel begun (try_cancel begun.gate)

Reach-late : Reach fresh_world late
unfolding begun late
Reach-late = next (next here (began refl)) (asked_to_cancel refl)

runs_once_example : (late.runs ≤ 1) × ((late.cancel_won ≡ false) ⊎ (late.runs ≡ 0))
runs_once_example = runs_once Reach-late

abbrev speaker : TargetCandidateView
speaker = record { id = 65 ∷ 49 ∷ []; name = 83 ∷ []; alias = 75 ∷ [] }

abbrev same_letter : ℕ → ℕ
same_letter c = c

find_lists_matches_example :
    let r = find_auto_target_matches same_letter (speaker ∷ []) (83 ∷ []) in
    (listed 0 r.indices ≡ true) ↔ NamesAt same_letter (83 ∷ []) r.rank (get_elem? (speaker ∷ []) 0)
find_lists_matches_example = find_lists_matches same_letter (speaker ∷ []) (83 ∷ []) 0
