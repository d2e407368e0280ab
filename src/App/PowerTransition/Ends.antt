-- ===== src/App/PowerTransition/Ends.antt =====
-- Rounds of a recovery: a tick and the completion of its delivery
-- (AudioPlaybackConnector2/src/app/PowerTransitionCoordinator.cpp).
use audio_playback_connector.Prelude.{
  ◌∙◌, ℕ, zero, suc, ◌+◌, ◌≤◌, ◌<◌, ◌≡◌, refl, Bool, true, false, not, ◌||◌, Option, some, List, [],
  ◌∷◌, arith, All, Bool-cases, inl, inr, if◌then◌else◌, ◌==◌,
}
use audio_playback_connector.Text.{is_empty, contains, same_iff}
use audio_playback_connector.Text.Utf16.{WString}
use audio_playback_connector.Device.Session.Data.{advance}
use audio_playback_connector.App.PowerTransition.{
  Target, no_timer, ticking, Coordinator, deliver, tick, finish_resume, complete, eligible,
  drop_exhausted, record_attempts, is_exhausted,
}
use audio_playback_connector.App.PowerTransition.Targets.{is_empty-eligible}

-- A tick whose delivery is completed. `tries` are the devices that the callback reports as started, of those
-- that it was handed.
unfoldable pub round : (List WString → List WString) → Coordinator → Coordinator
round tries s =
    let d = tick s in
    complete d.state.generation d.state.delivery_sequence (tries d.handed_out) d.state

unfoldable pub rounds : (List WString → List WString) → ℕ → Coordinator → Coordinator
rounds tries zero s = s
rounds tries (suc n) s = rounds tries n (round tries s)

-- Every device that is handed out is started.
abbrev pub StartsAll : (List WString → List WString) → Type 0
StartsAll tries =
    (ids : List WString) (id : WString) → contains ids id ≡ true → contains (tries ids) id ≡ true

abbrev pub no_tries : List WString → List WString
no_tries ids = []

-- The recovery is over.
record IsOver (s : Coordinator) : Type 0 where
  no_targets : s.targets ≡ []
  stopped : s.timer ≡ no_timer

-- A recovery under way, between two ticks.
abbrev live : Bool → Option ℕ → ℕ → ℕ → List Target → Coordinator
live suspended handled n sequence ts = record {
  power_suspended = suspended;
  last_resume_handled_at = handled;
  timer = ticking n;
  targets = ts;
  generation = n;
  delivery_sequence = sequence;
  reconnect = some true;
  delivery_in_flight = false;
  cancelled = false;
}

abbrev AtLeast : ℕ → Target → Type 0
AtLeast k t = k ≤ t.attempts

eq_self : (n : ℕ) → (n == n) ≡ true
eq_self n = ground arith

covered :
    (ids js : List WString) (ts : List Target)
    → All (λ t. contains ids t.id ≡ true) ts
    → (id : WString) → All (λ t. contains (id ∷ ids) t.id ≡ true) ts
covered ids js [] h id = tt
covered ids js (t ∷ ts) h id = (ground (arith, h.0), covered ids js ts h.1 id)

eligible-covers :
    (ts : List Target) → All (λ t. contains (eligible ts) t.id ≡ true) (drop_exhausted ts)
unfolding eligible drop_exhausted
eligible-covers [] = tt
eligible-covers (t ∷ ts) = elim (Bool-cases (is_exhausted t)) [
  | inl e ↦ rw (e) (eligible-covers ts)
  | inr e ↦
      rw (e) (
        rw ((same_iff t.id t.id).1 refl) refl,
        covered (eligible ts) [] _ (eligible-covers ts) t.id,
      )
]

started :
    (tries : List WString → List WString) (ids : List WString) (ts : List Target)
    → StartsAll tries
    → All (λ t. contains ids t.id ≡ true) ts
    → All (λ t. contains (tries ids) t.id ≡ true) ts
started tries ids [] k h = tt
started tries ids (t ∷ ts) k h = (k ids t.id h.0, started tries ids ts k h.1)

no_attempts : (ts : List Target) → record_attempts [] ts ≡ ts
unfolding record_attempts
no_attempts [] = refl
no_attempts (t ∷ ts) = rw (no_attempts ts) refl

drop_exhausted-AtLeast :
    (k : ℕ) (ts : List Target)
    → All (AtLeast k) ts
    → All (λ t. (k ≤ t.attempts) × (t.attempts < 6)) (drop_exhausted ts)
unfolding drop_exhausted
drop_exhausted-AtLeast k [] h = tt
drop_exhausted-AtLeast k (t ∷ ts) h = elim (Bool-cases (is_exhausted t)) [
  | inl e ↦ rw (e) (drop_exhausted-AtLeast k ts h.1)
  | inr e ↦ rw (e) ((h.0, ground arith), drop_exhausted-AtLeast k ts h.1)
]

record_attempts-AtLeast :
    (k : ℕ) (ids : List WString) (ts : List Target)
    → All (λ t. contains ids t.id ≡ true) ts
    → All (λ t. (k ≤ t.attempts) × (t.attempts < 6)) ts
    → All (AtLeast (suc k)) (record_attempts ids ts)
unfolding record_attempts
record_attempts-AtLeast k ids [] h l = tt
record_attempts-AtLeast k ids (t ∷ ts) h l =
    (rw (h.0) (omega (arith, l.0)), record_attempts-AtLeast k ids ts h.1 l.1)

none_left :
    (k : ℕ) (ts : List Target)
    → All (λ t. (k ≤ t.attempts) × (t.attempts < 6)) ts
    → is_empty ts ≡ false
    → k < 6
none_left k [] h e = absurd (cc)
none_left k (t ∷ ts) h e = omega (arith, h.0)

if-targets :
    (b : Bool) (x y : Coordinator)
    → y.targets ≡ x.targets
    → (if b then x else y).targets ≡ x.targets
if-targets true x y h = refl
if-targets false x y h = h

if-IsOver : {x y : Coordinator} (b : Bool) → IsOver x → IsOver y → IsOver (if b then x else y)
if-IsOver true h k = h
if-IsOver false h k = k

complete-IsOver :
    (g d : ℕ) (ids : List WString) (s : Coordinator) → IsOver s → IsOver (complete g d ids s)
unfolding complete record_attempts
complete-IsOver g d ids s h =
    if-IsOver
      (s.cancelled
        || not (s.generation == g)
        || not (s.delivery_sequence == d)
        || not s.delivery_in_flight)
      h (record { no_targets = rw (h.no_targets) refl; stopped = h.stopped })

tick-IsOver : (s : Coordinator) → IsOver s → IsOver (tick s).state
unfolding tick
tick-IsOver s h = rw (tick, h.stopped) h

IsOver-rounds :
    (tries : List WString → List WString) (n : ℕ) (s : Coordinator)
    → IsOver s
    → IsOver (rounds tries n s)
unfolding rounds round
IsOver-rounds tries zero s h = h
IsOver-rounds tries (suc n) s h =
    IsOver-rounds tries n _ (complete-IsOver _ _ _ _ (tick-IsOver s h))

nothing_in : {A : Type 0} (xs : List A) → is_empty xs ≡ true → xs ≡ []
nothing_in [] e = refl
nothing_in (x ∷ xs) e = absurd (cc)

drop_exhausted-is_empty :
    (ts : List Target) → is_empty (drop_exhausted ts) ≡ false → is_empty ts ≡ false
unfolding drop_exhausted
drop_exhausted-is_empty [] e = e
drop_exhausted-is_empty (t ∷ ts) e = refl

module _ (p : Bool) (l : Option ℕ) (n sequence : ℕ) (ts : List Target) where
  -- A delivery that hands out the devices that are left.
  deliver-live :
      is_empty (drop_exhausted ts) ≡ false
      → deliver n (live p l n sequence ts) ≡ record {
        state = record (live p l n (advance sequence) (drop_exhausted ts)) {
          delivery_in_flight = true;
        };
        goes_on = true;
        handed_out = eligible ts;
      }
  unfolding deliver
  deliver-live e =
      rw (deliver, eq_self n, drop_exhausted-is_empty ts e, is_empty-eligible ts ∙ e) refl

  round-live :
      (tries : List WString → List WString)
      → is_empty (drop_exhausted ts) ≡ false
      → round tries (live p l n sequence ts)
        ≡ live p l n (advance sequence) (record_attempts (tries (eligible ts)) (drop_exhausted ts))
  unfolding round tick complete
  round-live tries e =
      rw (round, tick, deliver-live e, complete, eq_self n, eq_self (advance sequence)) refl

  tick-ends : is_empty (drop_exhausted ts) ≡ true → IsOver (tick (live p l n sequence ts)).state
  unfolding tick deliver
  tick-ends e = elim (Bool-cases (is_empty ts)) [
    | inl f ↦
        rw (tick, deliver, eq_self n, f) (record { no_targets = nothing_in ts f; stopped = refl })
    | inr f ↦
        rw (tick, deliver, eq_self n, f, is_empty-eligible ts ∙ e)
          (record { no_targets = nothing_in _ e; stopped = refl })
  ]

live-IsOver :
    (tries : List WString → List WString) (p : Bool) (l : Option ℕ) (n sequence k m : ℕ)
    (ts : List Target)
    → StartsAll tries
    → k + m ≡ 6
    → All (AtLeast k) ts
    → IsOver (rounds tries (suc m) (live p l n sequence ts))
unfolding rounds round
live-IsOver tries p l n sequence k zero ts a e h =
    elim (Bool-cases (is_empty (drop_exhausted ts))) [
      | inl f ↦ complete-IsOver _ _ _ _ (tick-ends p l n sequence ts f)
      | inr f ↦ absurd (omega (arith, e, none_left k _ (drop_exhausted-AtLeast k ts h) f))
    ]
live-IsOver tries p l n sequence k (suc m) ts a e h =
    elim (Bool-cases (is_empty (drop_exhausted ts))) [
      | inl f ↦
          IsOver-rounds tries (suc m) _ (complete-IsOver _ _ _ _ (tick-ends p l n sequence ts f))
      | inr f ↦ rw (round-live p l n sequence ts tries f) (
          live-IsOver tries p l n (advance sequence) (suc k) m _ a (omega (arith, e)) (
            record_attempts-AtLeast k _ _ (started tries _ _ a (eligible-covers ts))
              (drop_exhausted-AtLeast k ts h)))
    ]

All-AtLeast : (ts : List Target) → All (AtLeast 0) ts
All-AtLeast [] = tt
All-AtLeast (t ∷ ts) = (omega arith, All-AtLeast ts)

-- A completion without a started device.
complete-skips : (g d : ℕ) (s : Coordinator) → (complete g d [] s).targets ≡ s.targets
unfolding complete
complete-skips g d s =
    if-targets
      (s.cancelled
        || not (s.generation == g)
        || not (s.delivery_sequence == d)
        || not s.delivery_in_flight)
      s _ (no_attempts s.targets)

tick-targets :
    (p : Bool) (l : Option ℕ) (n sequence : ℕ) (ts : List Target)
    → is_empty ts ≡ false
    → (tick (live p l n sequence ts)).state.targets ≡ drop_exhausted ts
unfolding tick deliver
tick-targets p l n sequence ts t = elim (Bool-cases (is_empty (drop_exhausted ts))) [
  | inl e ↦ rw (tick, deliver, eq_self n, t, is_empty-eligible ts ∙ e) refl
  | inr e ↦ rw (tick, deliver, eq_self n, t, is_empty-eligible ts ∙ e) refl
]

round-skips :
    (p : Bool) (l : Option ℕ) (n sequence : ℕ) (ts : List Target)
    → is_empty ts ≡ false
    → (round no_tries (live p l n sequence ts)).targets ≡ drop_exhausted ts
unfolding round
round-skips p l n sequence ts t = complete-skips _ _ _ ∙ tick-targets p l n sequence ts t

-- After a resume that is scheduled, where no device connects, it is the started attempts that end the
-- recovery. If in each round every device that is handed out is started, seven rounds end it: nothing is
-- left to be connected, and the schedule has stopped. A round in which nothing is started uses up no
-- attempt: the devices that have attempts left stay, with as many as they had.
pub recovery_ends :
    (tries : List WString → List WString) (s : Coordinator)
    → StartsAll tries
    → s.cancelled ≡ false
    → is_empty s.targets ≡ false
    → let begun = (finish_resume true true s).state in
      ((rounds tries 7 begun).targets ≡ [])
      × ((rounds tries 7 begun).timer ≡ no_timer)
      × ((round no_tries begun).targets ≡ drop_exhausted s.targets)
unfolding finish_resume
recovery_ends tries s a c t =
    let over : IsOver (rounds tries 7 (finish_resume true true s).state) =
      rw (finish_resume, c, t)
        (live-IsOver tries s.power_suspended s.last_resume_handled_at s.generation
          s.delivery_sequence 0 6 s.targets a refl (All-AtLeast s.targets)) in
    let skipped : (round no_tries (finish_resume true true s).state).targets
        ≡ drop_exhausted s.targets =
      rw (finish_resume, c, t)
        (round-skips s.power_suspended s.last_resume_handled_at s.generation s.delivery_sequence
          s.targets t) in
    (over.no_targets, over.stopped, skipped)
