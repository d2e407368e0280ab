-- ===== src/Device/Reconnect.antt =====
-- `ReconnectPolicy` (AudioPlaybackConnector2/include/core/ReconnectPolicy.hpp and
-- AudioPlaybackConnector2/src/core/ReconnectPolicy.cpp): whether a lost connection is tried again, and
-- after how long, in seconds.
use audio_playback_connector.Prelude.{
  ◌⊎◌, ◌≢◌, ℕ, zero, suc, ◌+◌, ◌-◌, ◌*◌, ◌^◌, ◌≤◌, ◌<◌, ◌≡◌, refl, Bool, true, false, arith, leb,
  if◌then◌else◌,
}
use Prim.Native.Nat.{min}
use native.Mathlib.Nat.{pow-succ', add-sub_cancel}

pub data ReconnectRequest : Type 0 where
  connection_loss startup resume user_cancellation policy_disabled : ReconnectRequest

pub data ReconnectDecisionKind : Type 0 where
  retry defer user_cancelled disabled_by_policy terminal_failure : ReconnectDecisionKind

pub record ReconnectPolicyInput : Type 0 where
  pub request : ReconnectRequest
  pub completed_attempts : ℕ
  pub is_blocked : Bool

pub record ReconnectPolicyDecision : Type 0 where
  pub kind : ReconnectDecisionKind
  pub attempt : ℕ
  pub max_attempts : ℕ
  pub delay : ℕ

abbrev pub is_terminal : ReconnectDecisionKind → Bool
is_terminal terminal_failure = true
is_terminal _ = false

abbrev pub max_attempts : ℕ
max_attempts = 10

abbrev pub initial_retry_delay : ℕ
initial_retry_delay = 5

abbrev pub blocked_retry_delay : ℕ
blocked_retry_delay = 5

abbrev pub maximum_retry_delay : ℕ
maximum_retry_delay = 60

-- The loop of RetryDelayForAttempt, with the rounds that are left.
unfoldable pub doubled : ℕ → ℕ → ℕ
doubled zero delay = delay
doubled (suc rounds) delay = doubled rounds (min (delay * 2) maximum_retry_delay)

-- RetryDelayForAttempt.
unfoldable pub retry_delay_for_attempt : ℕ → ℕ
retry_delay_for_attempt attempt = doubled (attempt - 1) initial_retry_delay

abbrev pub decision : ReconnectDecisionKind → ℕ → ℕ → ReconnectPolicyDecision
decision k a d = record { kind = k; attempt = a; max_attempts = max_attempts; delay = d }

-- The part of Evaluate after the two cancelling requests.
unfoldable pub evaluate_attempt : ℕ → Bool → ReconnectPolicyDecision
evaluate_attempt completed blocked =
    let attempt = completed + 1 in
    if leb max_attempts completed
    then decision terminal_failure max_attempts 0
    else if blocked
    then decision defer attempt blocked_retry_delay
    else decision retry attempt (retry_delay_for_attempt attempt)

unfoldable pub evaluate : ReconnectPolicyInput → ReconnectPolicyDecision
evaluate i = elim i.request [
  | user_cancellation ↦ decision user_cancelled 0 0
  | policy_disabled ↦ decision disabled_by_policy 0 0
  | _ ↦ evaluate_attempt i.completed_attempts i.is_blocked
]

doubled-suc :
    (rounds d : ℕ) → doubled (suc rounds) d ≡ min (doubled rounds d * 2) maximum_retry_delay
unfolding doubled
doubled-suc zero d = refl
doubled-suc (suc n) d = doubled-suc n (min (d * 2) maximum_retry_delay)

doubled_none : (d : ℕ) → doubled 0 d ≡ d
unfolding doubled
doubled_none d = refl

doubled_closed : (rounds d : ℕ) → d ≤ 60 → doubled rounds d ≡ min (d * 2 ^ rounds) 60
doubled_closed zero d h = rw (doubled_none d) (ground arith)
doubled_closed (suc n) d h =
    rw (doubled-suc n d, doubled_closed n d h, pow-succ' 2 n) (ground arith)

-- The delay before the n-th retry, counted from 0, is five seconds doubled n times, or sixty seconds
-- if that is less.
pub retry_delay_closed : (n : ℕ) → retry_delay_for_attempt (n + 1) ≡ min (5 * 2 ^ n) 60
unfolding retry_delay_for_attempt
retry_delay_closed n = rw (add-sub_cancel n 1) (doubled_closed n 5 (omega arith))

-- The request is one to connect again, and not one to stop.
abbrev pub is_automatic : ReconnectRequest → Bool
is_automatic user_cancellation = false
is_automatic policy_disabled = false
is_automatic _ = true

-- A request that stops: neither a retry nor a delay.
abbrev pub Stops : ReconnectPolicyDecision → Type 0
Stops d = (d.kind ≢ retry) × (d.kind ≢ defer) × (d.delay ≡ 0)

-- An automatic request: given up after ten attempts, and before that counted and delayed.
abbrev pub Continues : ReconnectPolicyInput → ReconnectPolicyDecision → Type 0
Continues i d =
    ((10 ≤ i.completed_attempts) × (d.kind ≡ terminal_failure))
    ⊎ ((i.completed_attempts < 10)
        × (d.attempt ≡ i.completed_attempts + 1)
        × (d.kind ≡ (if i.is_blocked then defer else retry))
        × (d.delay ≡ (if i.is_blocked then 5 else min (5 * 2 ^ i.completed_attempts) 60)))

-- What a caller can rely on.
abbrev pub Promised : ReconnectPolicyInput → ReconnectPolicyDecision → Type 0
Promised i d =
    (((is_automatic i.request ≡ false) × Stops d)
      ⊎ ((is_automatic i.request ≡ true) × Continues i d))
    × (d.attempt ≤ d.max_attempts)
    × (d.max_attempts ≡ 10)

-- For every request: one that stops is answered with neither a retry nor a delay; an automatic one is
-- given up exactly after ten attempts, and before that is counted, deferred by five seconds where it
-- is blocked, and else retried after five seconds doubled for each attempt, at most sixty; the attempt
-- is at most ten.
pub evaluate-Promised : (i : ReconnectPolicyInput) → Promised i (evaluate i)
unfolding evaluate evaluate_attempt
evaluate-Promised i = ground (arith, retry_delay_closed i.completed_attempts)
