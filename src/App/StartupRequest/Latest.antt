-- ===== src/App/StartupRequest/Latest.antt =====
-- The coordination of startup-task operations: one at a time, and the latest request is served.
use audio_playback_connector.Prelude.{
  ℕ_discrete, ℕ, ◌-◌, ◌≤◌, ◌<◌, ◌≡◌, ◌⊎◌, inl, inr, Bool, true, false, Option, none, some, List, [],
  ◌∷◌, arith, if◌then◌else◌, is_some, Option-cases,
}
use audio_playback_connector.App.StartupRequest.{
  OperationToken, RequestState, fresh_state, wanted, refresh, RequestKind, request_desired,
  request_refresh, record_request, complete, complete_current, stale, publish, superseded,
  completion,
}

-- One call of the state.
pub data Call : Type 0 where
  asks : Bool → Call
  refreshes : Call
  completes : OperationToken → Bool → Call

-- The state after a call, and the operation that the caller is to start.
abbrev pub call : Call → RequestState → RequestState × Option OperationToken
call (asks d) s = let (t, a) = request_desired d s in (t, a.operation_to_start)
call refreshes s = let (t, a) = request_refresh s in (t, a.operation_to_start)
call (completes o b) s = let (t, a) = complete o b s in (t, a.operation_to_start)

-- The call completes what is in flight.
abbrev pub CompletesFlying : Call → RequestState → Type 0
CompletesFlying (completes o b) s = s.in_flight ≡ some o
CompletesFlying _ s = ⊥

-- The operations that were started, the newest first.
abbrev pub noted : Option OperationToken → List OperationToken → List OperationToken
noted none started = started
noted (some o) started = o ∷ started

-- The state after a sequence of calls, the last one first, with the operations that were started.
unfoldable pub run : List Call → RequestState × List OperationToken
run [] = (fresh_state, [])
run (c ∷ cs) = let (s, started) = run cs in let (t, o) = call c s in (t, noted o started)

-- Newer operations, all up to a revision, stand before older ones.
abbrev pub Falling : ℕ → List OperationToken → Type 0
Falling bound [] = Unit
Falling bound (o ∷ os) = (o.revision ≤ bound) × (0 < o.revision) × Falling (o.revision - 1) os

-- The operation in flight is the one that was started last.
abbrev pub FlyingLast : Option OperationToken → List OperationToken → Type 0
FlyingLast none started = Unit
FlyingLast (some f) [] = ⊥
FlyingLast (some f) (o ∷ os) = f ≡ o

-- The latest request carries the state's revision.
abbrev pub LatestOk : Option OperationToken → ℕ → Type 0
LatestOk none revision = Unit
LatestOk (some l) revision = (l.revision ≡ revision) × (0 < revision)

-- What is in flight is older than the latest request, or is its operation.
abbrev pub FlyingOk : Option OperationToken → Option OperationToken → ℕ → Type 0
FlyingOk none latest revision = Unit
FlyingOk (some f) none revision = f.revision ≤ revision
FlyingOk (some f) (some l) revision = (f.revision < l.revision) ⊎ (f ≡ l)

-- What holds after every sequence of calls.
pub record Inv (s : RequestState) (started : List OperationToken) : Type 0 where
  pub newest : LatestOk s.latest_request s.revision
  pub flying : FlyingOk s.in_flight s.latest_request s.revision
  pub served :
      is_some s.latest_request ≡ true → s.latest_settled ≡ false → is_some s.in_flight ≡ true
  pub settled_is_idle : s.latest_settled ≡ true → s.in_flight ≡ none
  pub dropped_is_idle : s.latest_request ≡ none → s.in_flight ≡ none
  pub exhausted_is_idle :
      s.revision_exhausted ≡ true → (s.latest_request ≡ none) × (s.in_flight ≡ none)
  pub falling : Falling s.revision started
  pub last : FlyingLast s.in_flight started

record_request-Inv :
    (k : RequestKind) (d : Bool) (s : RequestState) (started : List OperationToken)
    → s.revision_exhausted ≡ false
    → Inv s started
    → Inv (record_request k d s).0 (noted (record_request k d s).1.operation_to_start started)
unfolding record_request
record_request-Inv k d s started e h = ground arith

call-Inv :
    (c : Call) (s : RequestState) (started : List OperationToken)
    → Inv s started
    → Inv (call c s).0 (noted (call c s).1 started)
unfolding request_desired request_refresh complete complete_current
call-Inv (asks d) s st h = elim (Option-cases s.latest_request) [
  | inl e ↦ rw (e) (ground (arith, record_request-Inv wanted d s st))
  | inr (l, e) ↦ rw (e) (ground (arith, record_request-Inv wanted d s st))
]
call-Inv refreshes s st h = elim (Option-cases s.latest_request) [
  | inl e ↦ rw (e) (ground (arith, record_request-Inv refresh false s st))
  | inr (l, e) ↦ rw (e) (ground (arith, record_request-Inv refresh false s st))
]
call-Inv (completes o b) s [] h = ground arith
call-Inv (completes o b) s (n ∷ st) h = ground arith

starts_lem :
    (c : Call) (s : RequestState) (started : List OperationToken) {o : OperationToken}
    → (call c s).1 ≡ some o
    → Inv s started
    → ((call c s).0.in_flight ≡ some o)
      × ((call c s).0.latest_request ≡ some o)
      × Falling (o.revision - 1) started
      × ((s.in_flight ≡ none) ⊎ CompletesFlying c s)
unfolding request_desired request_refresh record_request complete complete_current
starts_lem (asks d) s st e h = ground arith
starts_lem refreshes s st e h = ground arith
starts_lem (completes o b) s [] e h = ground arith
starts_lem (completes o b) s (n ∷ st) e h = ground arith

served_lem :
    (s : RequestState) (started : List OperationToken) (l : OperationToken) (b : Bool)
    → Inv s started
    → s.latest_request ≡ some l
    → s.latest_settled ≡ false
    → (f : OperationToken) × (s.in_flight ≡ some f)
      × ((f ≡ l)
          ⊎ (complete f b s ≡ (record s { in_flight = some l }, completion superseded (some l))))
unfolding complete complete_current
served_lem s st l b h e u = elim (Option-cases s.in_flight) [
  | inl n ↦ ground arith
  | inr (f, i) ↦ (
    f,
    i,
    elim (ℕ_discrete f.revision l.revision) [
      | yes q ↦ inl (ground arith)
      | no q ↦ inr (ground arith)
    ],
  )
]

publishes_lem :
    (o : OperationToken) (b : Bool) (s : RequestState) (started : List OperationToken)
    → let t = (complete o b s).0 in
      (complete o b s).1.disposition ≡ publish
      → Inv s started
      → (s.latest_request ≡ some o)
        × (s.in_flight ≡ some o)
        × (t.in_flight ≡ none)
        × (t.latest_request ≡ (if b then some o else none))
        × (t.latest_settled ≡ b)
unfolding complete complete_current
publishes_lem o b s st e h = ground arith

stale_lem :
    (o : OperationToken) (b : Bool) (s : RequestState) (started : List OperationToken)
    → (complete o b s).1.disposition ≡ stale
    → Inv s started
    → complete o b s ≡ (s, completion stale none)
unfolding complete complete_current
stale_lem o b s st e h = ground arith

run-Inv : (cs : List Call) → Inv (run cs).0 (run cs).1
unfolding run
run-Inv [] = ground arith
run-Inv (c ∷ cs) = call-Inv c (run cs).0 (run cs).1 (run-Inv cs)

-- After any calls, a call that starts an operation starts the latest request, which is newer than every
-- operation started before; and nothing was in flight, or the call completed what was.
pub starts_latest :
    (cs : List Call) (c : Call) {o : OperationToken}
    → let s = (run cs).0 in
      let t = (run (c ∷ cs)).0 in
      (call c s).1 ≡ some o
      → (t.in_flight ≡ some o)
        × (t.latest_request ≡ some o)
        × Falling (o.revision - 1) (run cs).1
        × ((s.in_flight ≡ none) ⊎ CompletesFlying c s)
unfolding run
starts_latest cs c e = starts_lem c (run cs).0 (run cs).1 e (run-Inv cs)

-- After any calls, where the latest request is not settled an operation is in flight, and it is that
-- request's or its completion, kept or not, starts that request's.
pub latest_is_served :
    (cs : List Call) (l : OperationToken) (b : Bool)
    → let s = (run cs).0 in
      s.latest_request ≡ some l
      → s.latest_settled ≡ false
      → (f : OperationToken) × (s.in_flight ≡ some f)
        × ((f ≡ l)
            ⊎ (complete f b s ≡ (record s { in_flight = some l }, completion superseded (some l))))
latest_is_served cs l b e open_ = served_lem (run cs).0 (run cs).1 l b (run-Inv cs) e open_

-- After any calls, a completion is published only for the operation in flight whose request is still
-- the latest; then nothing is in flight, and the request is kept, settled, exactly where the caller
-- says so.
pub publishes_latest :
    (cs : List Call) (o : OperationToken) (b : Bool)
    → let s = (run cs).0 in
      let t = (complete o b s).0 in
      (complete o b s).1.disposition ≡ publish
      → (s.latest_request ≡ some o)
        × (s.in_flight ≡ some o)
        × (t.in_flight ≡ none)
        × (t.latest_request ≡ (if b then some o else none))
        × (t.latest_settled ≡ b)
unfolding complete complete_current
publishes_latest cs o b e = publishes_lem o b (run cs).0 (run cs).1 e (run-Inv cs)

-- After any calls, a completion that is judged stale changes nothing and starts nothing.
pub stale_changes_nothing :
    (cs : List Call) (o : OperationToken) (b : Bool)
    → (complete o b (run cs).0).1.disposition ≡ stale
    → complete o b (run cs).0 ≡ ((run cs).0, completion stale none)
unfolding complete complete_current
stale_changes_nothing cs o b e = stale_lem o b (run cs).0 (run cs).1 e (run-Inv cs)
