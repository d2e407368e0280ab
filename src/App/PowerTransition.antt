-- ===== src/App/PowerTransition.antt =====
-- The recovery of connections after the computer slept: `PowerTransitionCoordinator` of
-- AudioPlaybackConnector2/src/app/PowerTransitionCoordinator.cpp. Times are milliseconds.
pub mod World
pub mod Targets
pub mod Invariant
pub mod Operations
pub mod Recovery
pub mod Ends
mod Examples
use audio_playback_connector.Prelude.{
  ℕ, suc, ◌+◌, ◌-◌, ◌^◌, ◌%◌, Bool, true, false, not, ◌&&◌, ◌||◌, Option, none, some, List, [], ◌∷◌,
  ◌++◌, leb, ltb, ◌==◌, if◌then◌else◌,
}
use audio_playback_connector.Text.{same, contains, is_empty}
use audio_playback_connector.Text.Utf16.{WString}
use audio_playback_connector.Device.Session.Data.{advance}

abbrev pub max_resume_reconnect_attempts : ℕ
max_resume_reconnect_attempts = 6

abbrev pub duplicate_resume_window : ℕ
duplicate_resume_window = 2000

pub record Target : Type 0 where
  pub id : WString
  pub attempts : ℕ

-- The periodic schedule: none, also once it has stopped itself; one for a generation; or one that the
-- platform refused.
pub data Timer : Type 0 where
  no_timer : Timer
  ticking : ℕ → Timer
  unavailable : Timer

-- The members of the coordinator and of its `ResumeState`. A callback is known by whether it can be
-- called.
pub record Coordinator : Type 0 where
  pub power_suspended : Bool
  pub last_resume_handled_at : Option ℕ
  pub timer : Timer
  pub targets : List Target
  pub generation : ℕ
  pub delivery_sequence : ℕ
  pub reconnect : Option Bool
  pub delivery_in_flight : Bool
  pub cancelled : Bool

abbrev pub fresh_coordinator : Coordinator
fresh_coordinator = record {
  power_suspended = false;
  last_resume_handled_at = none;
  timer = no_timer;
  targets = [];
  generation = 0;
  delivery_sequence = 0;
  reconnect = none;
  delivery_in_flight = false;
  cancelled = false;
}

unfoldable pub is_target : WString → List Target → Bool
is_target id [] = false
is_target id (t ∷ ts) = same id t.id || is_target id ts

unfoldable pub reset_attempts : List Target → List Target
reset_attempts [] = []
reset_attempts (t ∷ ts) = record t { attempts = 0 } ∷ reset_attempts ts

unfoldable pub add_targets : List WString → List Target → List Target
add_targets [] ts = ts
add_targets (id ∷ ids) ts =
    let added = ts ++ record { id = id; attempts = 0 } ∷ [] in
    add_targets ids (if not (is_empty id) && not (is_target id ts) then added else ts)

-- BeginCycle.
unfoldable pub begin_cycle : List WString → List Target → List Target
begin_cycle ids ts = add_targets ids (reset_attempts ts)

abbrev pub is_exhausted : Target → Bool
is_exhausted t = leb max_resume_reconnect_attempts t.attempts

-- The eligible of SelectEligible.
unfoldable pub eligible : List Target → List WString
eligible [] = []
eligible (t ∷ ts) = let rest = eligible ts in if is_exhausted t then rest else t.id ∷ rest

-- The `erase_if` of SelectEligible.
unfoldable pub drop_exhausted : List Target → List Target
drop_exhausted [] = []
drop_exhausted (t ∷ ts) = let rest = drop_exhausted ts in if is_exhausted t then rest else t ∷ rest

-- RecordAttempts; the counter has 32 bits.
unfoldable pub record_attempts : List WString → List Target → List Target
record_attempts ids [] = []
record_attempts ids (t ∷ ts) =
    let tried = record t { attempts = (t.attempts + 1) % 2 ^ 32 } in
    (if contains ids t.id then tried else t) ∷ record_attempts ids ts

-- Cancel.
unfoldable pub cancel : Coordinator → Coordinator
cancel s = record s {
  cancelled = true;
  targets = [];
  reconnect = none;
  delivery_in_flight = false;
  generation = advance s.generation;
  timer = no_timer;
}

-- HandleSuspend up to its callbacks, with the generation that it goes on with.
unfoldable pub begin_suspend : Bool → Coordinator → Coordinator × Option ℕ
begin_suspend exiting s = if exiting || s.power_suspended then (s, none) else (
  record s {
    power_suspended = true;
    cancelled = true;
    reconnect = none;
    delivery_in_flight = false;
    generation = advance s.generation;
    timer = no_timer;
  },
  some (advance s.generation),
)

-- The rest of HandleSuspend, with the devices that were active.
unfoldable pub finish_suspend : Bool → ℕ → List WString → Coordinator → Coordinator
finish_suspend exiting generation ids s =
    let begun = record s { targets = begin_cycle ids s.targets; cancelled = false } in
    if not (s.generation == generation) || exiting then s else begun

abbrev pub is_duplicate : ℕ → Option ℕ → Bool
is_duplicate now none = false
is_duplicate now (some last) = ltb (now - last) duplicate_resume_window

-- HandleResume up to its callback, and whether a suspend is matched.
unfoldable pub begin_resume : Bool → ℕ → Coordinator → Coordinator × Bool
begin_resume exiting now s =
    let handled = record s { last_resume_handled_at = some now; power_suspended = false } in
    if exiting || not s.power_suspended && is_duplicate now s.last_resume_handled_at
    then (s, false)
    else (handled, s.power_suspended)

abbrev pub is_callable : Option Bool → Bool
is_callable none = false
is_callable (some b) = b

-- Where a delivery leads: the schedule stops or goes on, and the devices that are handed out.
pub record Delivery : Type 0 where
  pub state : Coordinator
  pub goes_on : Bool
  pub handed_out : List WString

-- DeliverResumeReconnect, up to the call of the callback.
unfoldable pub deliver : ℕ → Coordinator → Delivery
deliver generation s =
    let ids = eligible s.targets in
    let calls = not (is_empty ids) && is_callable s.reconnect in
    let selected = record s {
      targets = drop_exhausted s.targets;
      delivery_sequence = advance s.delivery_sequence;
      delivery_in_flight = calls;
    } in
    if s.cancelled || not (s.generation == generation) || is_empty s.targets
    then record { state = s; goes_on = false; handed_out = [] }
    else if s.delivery_in_flight
    then record { state = s; goes_on = true; handed_out = [] }
    else record {
      state = selected;
      goes_on = not (is_empty ids);
      handed_out = if calls then ids else [];
    }

-- A tick of the schedule; the answer false stops it.
unfoldable pub tick : Coordinator → Delivery
tick s = elim s.timer [
  | ticking generation ↦
      let d = deliver generation s in
      let stopped = record d.state { timer = no_timer } in
      record {
        state = if d.goes_on then d.state else stopped;
        goes_on = d.goes_on;
        handed_out = d.handed_out;
      }
  | _ ↦ record { state = s; goes_on = false; handed_out = [] }
]

-- The rest of HandleResume for a matched suspend, with the platform's answer to the scheduling. Where
-- it refuses, the devices are handed out once at once.
unfoldable pub finish_resume : Bool → Bool → Coordinator → Delivery
finish_resume callable granted s =
    let idle = record s { timer = no_timer } in
    let ready = record s { reconnect = some callable; delivery_in_flight = false } in
    if s.cancelled || is_empty s.targets
    then record { state = idle; goes_on = false; handed_out = [] }
    else if granted
    then record {
      state = record ready { timer = ticking s.generation };
      goes_on = true;
      handed_out = [];
    }
    else deliver s.generation (record ready { timer = unavailable })

-- The completion of a delivery, with the devices that were tried.
unfoldable pub complete : ℕ → ℕ → List WString → Coordinator → Coordinator
complete generation delivery ids s =
    let recorded = record s {
      targets = record_attempts ids s.targets;
      delivery_in_flight = false;
    } in
    if s.cancelled
      || not (s.generation == generation)
      || not (s.delivery_sequence == delivery)
      || not s.delivery_in_flight
    then s
    else recorded

unfoldable pub remove_target : WString → List Target → List Target
remove_target id [] = []
remove_target id (t ∷ ts) =
    let rest = remove_target id ts in if same t.id id then rest else t ∷ rest

-- NotifyDeviceConnected.
unfoldable pub notify_device_connected : WString → Coordinator → Coordinator
notify_device_connected id s =
    let rest = remove_target id s.targets in
    let waiting = record s { targets = rest } in
    let completed = record waiting { timer = no_timer } in
    if is_empty id then s else if is_empty rest then completed else waiting

abbrev pub is_generation_current : ℕ → Coordinator → Bool
is_generation_current generation s =
    not s.cancelled && s.generation == generation && not (is_empty s.targets)
