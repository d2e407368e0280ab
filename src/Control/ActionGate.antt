-- ===== src/Control/ActionGate.antt =====
-- `ControlUiActionGate` (AudioPlaybackConnector2/include/control/ControlUiActionGate.hpp): a UI action
-- races cancellation, and only one of them wins. Each function is one atomic access; `Complete` and
-- the classification are two accesses each, so a step relation interleaves them.
pub mod Race
use audio_playback_connector.Prelude.{
  ℕ, zero, suc, ◌+◌, ◌-◌, ◌*◌, ◌/◌, ◌%◌, ◌^◌, ◌≤◌, ◌<◌, ◌≡◌, refl, sym, ap, subst, ◌∙◌, ◌≢◌, ◌↔◌,
  ◌⊎◌, inl, inr, Bool, true, false, not, ◌&&◌, ◌||◌, Option, none, some, List, [], ◌∷◌, ◌++◌, arith,
  ltb, leb, ◌==◌, if◌then◌else◌, differs, holds, is_some, Bool-cases, Option-cases, length, take,
  u64_max, length-append, All,
}
use Prim.Native.Nat.{min, max}

pub data Phase : Type 0 where
  pending running cancelled completed : Phase

pub data Result : Type 0 where
  failed succeeded indeterminate : Result

pub record Gate : Type 0 where
  pub phase : Phase
  pub succeeded_flag : Bool

abbrev pub fresh_gate : Gate
fresh_gate = record { phase = pending; succeeded_flag = false }

-- compare_exchange_strong from Pending: the new gate, and the phase that was found if it failed.
unfoldable pub exchange_pending : Phase → Gate → Gate × Option Phase
exchange_pending wanted g = elim g.phase [
  | pending ↦ (record g { phase = wanted }, none)
  | other ↦ (g, some other)
]

-- TryBegin.
unfoldable pub try_begin : Gate → Gate × Bool
try_begin g = let (h, found) = exchange_pending running g in (h, not (is_some found))

-- The two stores of Complete.
unfoldable pub store_succeeded : Bool → Gate → Gate
store_succeeded b g = record g { succeeded_flag = b }

unfoldable pub store_completed : Gate → Gate
store_completed g = record g { phase = completed }

-- Classify, which reads the flag of the gate as it is then.
unfoldable pub classify : Phase → Gate → Result
classify completed g = if g.succeeded_flag then succeeded else failed
classify running g = indeterminate
classify _ g = failed

-- The exchange of CancelOrClassify; where it fails, the phase found is classified afterwards.
unfoldable pub try_cancel : Gate → Gate × Option Phase
try_cancel g = exchange_pending cancelled g
