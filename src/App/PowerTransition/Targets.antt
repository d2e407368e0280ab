-- ===== src/App/PowerTransition/Targets.antt =====
-- The attempts that the targets of a recovery have had
-- (AudioPlaybackConnector2/src/app/PowerTransitionCoordinator.cpp).
use audio_playback_connector.Prelude.{
  ◌≤◌, ◌<◌, ◌≡◌, refl, false, not, ◌&&◌, List, [], ◌∷◌, ◌++◌, arith, All, Bool-cases, inl, inr,
}
use audio_playback_connector.Text.{is_empty, contains}
use audio_playback_connector.Text.Utf16.{WString}
use audio_playback_connector.App.PowerTransition.{
  same, Target, is_exhausted, is_target, reset_attempts, add_targets, begin_cycle, eligible,
  drop_exhausted, record_attempts, remove_target,
}

abbrev pub Few : Target → Type 0
Few t = t.attempts ≤ 6

abbrev pub Fewer : Target → Type 0
Fewer t = t.attempts < 6

pub All-Few : (ts : List Target) → All Fewer ts → All Few ts
All-Few [] h = tt
All-Few (t ∷ ts) h = (omega (arith, h.0), All-Few ts h.1)

reset_attempts-Fewer : (ts : List Target) → All Fewer (reset_attempts ts)
unfolding reset_attempts
reset_attempts-Fewer [] = tt
reset_attempts-Fewer (t ∷ ts) = (omega arith, reset_attempts-Fewer ts)

append-Fewer : (ts us : List Target) → All Fewer ts → All Fewer us → All Fewer (ts ++ us)
append-Fewer [] us h k = k
append-Fewer (t ∷ ts) us h k = (h.0, append-Fewer ts us h.1 k)

add_targets-Fewer :
    (ids : List WString) (ts : List Target) → All Fewer ts → All Fewer (add_targets ids ts)
unfolding add_targets
add_targets-Fewer [] ts h = h
add_targets-Fewer (id ∷ ids) ts h = elim (Bool-cases (not (is_empty id) && not (is_target id ts))) [
  | inl e ↦ rw (e) (add_targets-Fewer ids _ (append-Fewer ts _ h (omega arith, tt)))
  | inr e ↦ rw (e) (add_targets-Fewer ids ts h)
]

pub begin_cycle-Fewer : (ids : List WString) (ts : List Target) → All Fewer (begin_cycle ids ts)
unfolding begin_cycle
begin_cycle-Fewer ids ts = add_targets-Fewer ids _ (reset_attempts-Fewer ts)

pub drop_exhausted-Fewer : (ts : List Target) → All Fewer (drop_exhausted ts)
unfolding drop_exhausted
drop_exhausted-Fewer [] = tt
drop_exhausted-Fewer (t ∷ ts) = elim (Bool-cases (is_exhausted t)) [
  | inl e ↦ rw (e) (drop_exhausted-Fewer ts)
  | inr e ↦ rw (e) (ground arith, drop_exhausted-Fewer ts)
]

pub record_attempts-Few :
    (ids : List WString) (ts : List Target) → All Fewer ts → All Few (record_attempts ids ts)
unfolding record_attempts
record_attempts-Few ids [] h = tt
record_attempts-Few ids (t ∷ ts) h = elim (Bool-cases (contains ids t.id)) [
  | inl e ↦ rw (e) (omega (arith, h.0), record_attempts-Few ids ts h.1)
  | inr e ↦ rw (e) (omega (arith, h.0), record_attempts-Few ids ts h.1)
]

pub remove_target-All :
    (P : Target → Type 0) (id : WString) (ts : List Target) → All P ts → All P (remove_target id ts)
unfolding remove_target
remove_target-All P id [] h = tt
remove_target-All P id (t ∷ ts) h = elim (Bool-cases (same t.id id)) [
  | inl e ↦ rw (e) (remove_target-All P id ts h.1)
  | inr e ↦ rw (e) (h.0, remove_target-All P id ts h.1)
]

-- The eligible targets are those that are not erased.
pub is_empty-eligible : (ts : List Target) → is_empty (eligible ts) ≡ is_empty (drop_exhausted ts)
unfolding eligible drop_exhausted
is_empty-eligible [] = refl
is_empty-eligible (t ∷ ts) = elim (Bool-cases (is_exhausted t)) [
  | inl e ↦ rw (e) (is_empty-eligible ts)
  | inr e ↦ rw (e) refl
]

pub is_empty-record_attempts :
    (ids : List WString) (ts : List Target) → is_empty (record_attempts ids ts) ≡ is_empty ts
unfolding record_attempts
is_empty-record_attempts ids [] = refl
is_empty-record_attempts ids (t ∷ ts) = refl

pub remove_target-is_empty :
    (id : WString) (ts : List Target) → is_empty (remove_target id ts) ≡ false → is_empty ts ≡ false
unfolding remove_target
remove_target-is_empty id [] h = h
remove_target-is_empty id (t ∷ ts) h = refl
