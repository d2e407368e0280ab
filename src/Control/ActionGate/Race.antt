-- ===== src/Control/ActionGate/Race.antt =====
-- One thread runs the UI action, others cancel it and ask how it went.
use audio_playback_connector.Prelude.{
  ◌⊎◌, ℕ, ◌+◌, ◌≤◌, ◌≡◌, ◌↔◌, Bool, true, false, Option, none, some, arith,
}
use audio_playback_connector.Control.ActionGate.{
  Phase, pending, running, cancelled, completed, Result, failed, succeeded, indeterminate, Gate,
  fresh_gate, exchange_pending, try_begin, store_succeeded, store_completed, classify, try_cancel,
}

-- What the thread that began the action does: nothing yet, the action, the first store of Complete,
-- the second.
pub data Owner : Type 0 where
  nobody acting : Owner
  stored finished : Bool → Owner

-- The gate, the owner, how often the action was begun, whether a cancellation won, and the phases that
-- a failed cancellation has found and may still classify.
pub record World : Type 0 where
  pub gate : Gate
  pub owner : Owner
  pub runs : ℕ
  pub cancel_won : Bool
  pub found_running : Bool
  pub found_cancelled : Bool
  pub found_completed : Bool

abbrev pub fresh_world : World
fresh_world = record {
  gate = fresh_gate;
  owner = nobody;
  runs = 0;
  cancel_won = false;
  found_running = false;
  found_cancelled = false;
  found_completed = false;
}

abbrev pub was_found : Phase → World → Bool
was_found pending w = false
was_found running w = w.found_running
was_found cancelled w = w.found_cancelled
was_found completed w = w.found_completed

-- A cancellation exchanges the phase; where that fails, it has found another phase.
abbrev pub after_cancel : World → Gate × Option Phase → World
after_cancel w (g, none) = record w { gate = g; cancel_won = true }
after_cancel w (g, some pending) = record w { gate = g }
after_cancel w (g, some running) = record w { gate = g; found_running = true }
after_cancel w (g, some cancelled) = record w { gate = g; found_cancelled = true }
after_cancel w (g, some completed) = record w { gate = g; found_completed = true }

-- Only a thread whose TryBegin succeeded runs the action.
abbrev pub after_begin : World → Gate × Bool → World
after_begin w (g, true) = record w { gate = g; owner = acting; runs = w.runs + 1 }
after_begin w (g, false) = record w { gate = g }

pub data Step (w v : World) : Type 0 where
  began : v ≡ after_begin w (try_begin w.gate) → Step w v
  acted :
      (b : Bool)
      → w.owner ≡ acting
      → v ≡ record w { gate = store_succeeded b w.gate; owner = stored b }
      → Step w v
  published :
      (b : Bool)
      → w.owner ≡ stored b
      → v ≡ record w { gate = store_completed w.gate; owner = finished b }
      → Step w v
  asked_to_cancel : v ≡ after_cancel w (try_cancel w.gate) → Step w v

pub data Reach (w : World) : World → Type 0 where
  here : Reach w w
  next : {v u : World} → Reach w v → Step v u → Reach w u

-- The owner and the phase agree.
abbrev pub OwnerOk : Owner → World → Type 0
OwnerOk nobody w = (w.runs ≡ 0) × ((w.gate.phase ≡ pending) ⊎ (w.gate.phase ≡ cancelled))
OwnerOk acting w = (w.runs ≡ 1) × (w.gate.phase ≡ running)
OwnerOk (stored b) w = (w.runs ≡ 1) × (w.gate.phase ≡ running) × (w.gate.succeeded_flag ≡ b)
OwnerOk (finished b) w = (w.runs ≡ 1) × (w.gate.phase ≡ completed) × (w.gate.succeeded_flag ≡ b)

pub record Inv (w : World) : Type 0 where
  pub owned : OwnerOk w.owner w
  pub won : (w.cancel_won ≡ true) ↔ (w.gate.phase ≡ cancelled)
  pub running_found : w.found_running ≡ true → w.runs ≡ 1
  pub cancelled_found : w.found_cancelled ≡ true → w.gate.phase ≡ cancelled
  pub completed_found : w.found_completed ≡ true → w.gate.phase ≡ completed

Step-Inv : {w v : World} → Step w v → Inv w → Inv v
unfolding exchange_pending try_begin store_succeeded store_completed try_cancel
Step-Inv (began e) h = rw (e) (ground arith)
Step-Inv (acted b o e) h = rw (e) (ground arith)
Step-Inv (published b o e) h = rw (e) (ground arith)
Step-Inv (asked_to_cancel e) h = rw (e) (ground arith)

Reach-Inv : {w : World} → Reach fresh_world w → Inv w
Reach-Inv here = ground arith
Reach-Inv (next r s) = Step-Inv s (Reach-Inv r)

-- In every interleaving the action is begun at most once, and never where a cancellation won.
pub runs_once :
    {w : World} → Reach fresh_world w → (w.runs ≤ 1) × ((w.cancel_won ≡ false) ⊎ (w.runs ≡ 0))
runs_once {w} r = ground (arith, Reach-Inv r)

-- What an answer to a cancellation says of the action.
abbrev pub Tells : Result → World → Type 0
Tells failed w = ((w.runs ≡ 0) × (w.cancel_won ≡ true)) ⊎ (w.owner ≡ finished false)
Tells succeeded w = w.owner ≡ finished true
Tells indeterminate w = w.runs ≡ 1

-- In every interleaving, what a cancellation classifies after its failed exchange, however late, is
-- true: "failed" where the action was cancelled unbegun or has finished in failure, "succeeded" where
-- it has finished in success, "indeterminate" where it was begun.
pub classify-Tells :
    {w : World} (p : Phase)
    → Reach fresh_world w
    → was_found p w ≡ true
    → Tells (classify p w.gate) w
unfolding classify
classify-Tells {w} p r f = ground (arith, Reach-Inv r)
