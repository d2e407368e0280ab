-- ===== src/App/StartupRequest.antt =====
-- `LatestStartupTaskRequestState` (AudioPlaybackConnector2/include/app/LatestStartupTaskRequestState.hpp):
-- at most one operation on the startup task is under way, and the latest request wins.
pub mod Latest
use audio_playback_connector.Prelude.{
  ℕ, zero, suc, ◌+◌, ◌-◌, ◌*◌, ◌/◌, ◌%◌, ◌^◌, ◌≤◌, ◌<◌, ◌≡◌, refl, sym, ap, subst, ◌∙◌, ◌≢◌, ◌↔◌,
  ◌⊎◌, inl, inr, Bool, true, false, not, ◌&&◌, ◌||◌, Option, none, some, List, [], ◌∷◌, ◌++◌, arith,
  ltb, leb, ◌==◌, if◌then◌else◌, differs, holds, is_some, Bool-cases, Option-cases, length, take,
  u64_max, length-append, All,
}
use Prim.Native.Nat.{min, max}

pub data RequestKind : Type 0 where
  refresh wanted : RequestKind

pub record OperationToken : Type 0 where
  pub revision : ℕ
  pub kind : RequestKind
  pub desired : Bool

pub record RequestResult : Type 0 where
  pub revision : ℕ
  pub accepted : Bool
  pub coalesced : Bool
  pub operation_to_start : Option OperationToken

pub data CompletionDisposition : Type 0 where
  stale publish superseded : CompletionDisposition

pub record CompletionResult : Type 0 where
  pub disposition : CompletionDisposition
  pub operation_to_start : Option OperationToken

pub record RequestState : Type 0 where
  pub revision : ℕ
  pub latest_request : Option OperationToken
  pub in_flight : Option OperationToken
  pub latest_settled : Bool
  pub revision_exhausted : Bool

abbrev pub fresh_state : RequestState
fresh_state = record {
  revision = 0;
  latest_request = none;
  in_flight = none;
  latest_settled = false;
  revision_exhausted = false;
}

abbrev pub same_kind : RequestKind → RequestKind → Bool
same_kind refresh k = elim k [ refresh ↦ true | wanted ↦ false ]
same_kind wanted k = elim k [ refresh ↦ false | wanted ↦ true ]

-- `==` of two tokens.
abbrev pub same_token : OperationToken → OperationToken → Bool
same_token a b =
    (a.revision == b.revision) && same_kind a.kind b.kind && not (differs a.desired b.desired)

abbrev pub answer : ℕ → Bool → Bool → Option OperationToken → RequestResult
answer r a c o = record { revision = r; accepted = a; coalesced = c; operation_to_start = o }

-- RecordRequest.
unfoldable pub record_request : RequestKind → Bool → RequestState → RequestState × RequestResult
record_request kind desired s =
    let request : OperationToken = record {
      revision = s.revision + 1;
      kind = kind;
      desired = desired;
    } in
    let t = record s {
      revision = s.revision + 1;
      latest_request = some request;
      latest_settled = false;
    } in
    if s.revision == u64_max
    then (
      record s {
        revision_exhausted = true;
        latest_settled = false;
        latest_request = none;
        in_flight = none;
      },
      answer s.revision false false none,
    )
    else if is_some s.in_flight
    then (t, answer request.revision true false none)
    else (record t { in_flight = some request }, answer request.revision true false (some request))

unfoldable pub request_desired : Bool → RequestState → RequestState × RequestResult
request_desired desired s =
    if s.revision_exhausted
    then (s, answer s.revision false false none)
    else elim s.latest_request [
      | some l ↦
          if same_kind l.kind wanted && not (differs l.desired desired)
          then (s, answer l.revision true true none)
          else record_request wanted desired s
      | none ↦ record_request wanted desired s
    ]

unfoldable pub request_refresh : RequestState → RequestState × RequestResult
request_refresh s =
    if s.revision_exhausted
    then (s, answer s.revision false false none)
    else elim s.latest_request [
      | some l ↦
          if not s.latest_settled
          then (s, answer l.revision true true none)
          else record_request refresh false s
      | none ↦ record_request refresh false s
    ]

abbrev pub completion : CompletionDisposition → Option OperationToken → CompletionResult
completion d o = record { disposition = d; operation_to_start = o }

-- The part of Complete after its guard, once nothing is in flight.
unfoldable pub complete_current :
    OperationToken → Bool → RequestState → RequestState × CompletionResult
complete_current operation retain s = elim s.latest_request [
  | some l ↦
      if l.revision == operation.revision
      then (
        record s { latest_settled = retain; latest_request = if retain then some l else none },
        completion publish none,
      )
      else (record s { in_flight = some l }, completion superseded (some l))
  | none ↦ (s, completion stale none)
]

unfoldable pub complete : OperationToken → Bool → RequestState → RequestState × CompletionResult
complete operation retain s = elim s.in_flight [
  | some f ↦
      if s.revision_exhausted || not (same_token f operation)
      then (s, completion stale none)
      else complete_current operation retain (record s { in_flight = none })
  | none ↦ (s, completion stale none)
]
