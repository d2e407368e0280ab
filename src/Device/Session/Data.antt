-- ===== src/Device/Session/Data.antt =====
-- The types of a session, its state, and what the session asks of the platform
-- (AudioPlaybackConnector2/include/core/DeviceSession.hpp and the fields of `DeviceSession::State`).
use audio_playback_connector.Prelude.{
  get_elem?, ◌-◌, ◌==◌, if◌then◌else◌, ◌∷◌, ℕ, Bool, true, false, Option, none, List, [], ◌+◌, ◌^◌,
  ◌%◌,
}

pub data Lifecycle : Type 0 where
  idle connecting connected disconnecting waiting_for_reconnect failed : Lifecycle

pub data OperationKind : Type 0 where
  manual_connect manual_reconnect automatic_reconnect startup resume incoming_enable : OperationKind

pub data ConnectionState : Type 0 where
  opened closed : ConnectionState

pub data ConnectionResult : Type 0 where
  success timed_out denied failure cancelled : ConnectionResult

pub data DisconnectReason : Type 0 where
  unspecified normal unexpected_loss device_removed : DisconnectReason

pub data CloseContinuation : Type 0 where
  to_idle replace retry transient_open_retry suspend : CloseContinuation

-- What is published: the moving parts of the snapshot, and the fields of the fact.
pub record Fact : Type 0 where
  pub state : Lifecycle
  pub operation_epoch : ℕ
  pub completed_retry_attempts : ℕ
  pub has_connection : Bool
  pub operation : OperationKind
  pub result : ConnectionResult
  pub is_terminal_failure : Bool
  pub disconnect_reason : DisconnectReason

-- The timer for the next attempt, with the epochs that its callback carries.
pub data ReconnectTimer : Type 0 where
  retry_timer transient_timer : ℕ → ℕ → ReconnectTimer

-- The platform's answers, by the number of the call: whether Create gave a connection, the token of
-- RegisterStateChanged (none where it threw), whether Start and Open did not throw, and whether a
-- timer was scheduled.
pub record Platform : Type 0 where
  pub creates : ℕ → Bool
  pub registers : ℕ → Option ℕ
  pub starts : ℕ → Bool
  pub opens : ℕ → Bool
  pub schedules : ℕ → Bool

-- Connections are numbered as they are created. Next to the state's own fields stand the number of
-- platform calls, the facts published, newest first, the delay asked of the last timer in milliseconds,
-- whether a connection was created beside another, whether the table of delays was read out of its
-- bounds, and whether the model's recursion on fuel ran out.
pub record Session : Type 0 where
  pub has_device_id : Bool
  pub connection : Option ℕ
  pub closing_connection : Option ℕ
  pub reconnect_timer : Option ReconnectTimer
  pub close_barrier_timer : Bool
  pub state_changed_token : ℕ
  pub operation_epoch : ℕ
  pub timer_epoch : ℕ
  pub close_barrier_epoch : ℕ
  pub completed_retry_attempts : ℕ
  pub transient_open_retry_attempts : ℕ
  pub lifecycle : Lifecycle
  pub current_operation : OperationKind
  pub is_incoming_enabled : Bool
  pub is_reconnect_enabled : Bool
  pub is_reconnect_cancelled : Bool
  pub is_suspended : Bool
  pub is_shutdown : Bool
  pub open_immediately : Bool
  pub retry_eligible : Bool
  pub restore_incoming_after_close : Bool
  pub resume_required : Bool
  pub resume_open_immediately : Bool
  pub resume_operation : OperationKind
  pub resume_requested : Bool
  pub is_suspend_close_pending : Bool
  pub suspend_close_epoch : ℕ
  pub is_close_in_flight : Bool
  pub is_close_cooldown : Bool
  pub is_close_continuation_abandoned : Bool
  pub pending_close_continuation : CloseContinuation
  pub pending_close_failure : ConnectionResult
  pub pending_close_retry_eligible : Bool
  pub pending_close_completed_attempt : Bool
  pub pending_close_disconnect_reason : DisconnectReason
  pub calls : ℕ
  pub facts : List Fact
  pub timer_delay : ℕ
  pub overlap : Bool
  pub bad_index : Bool
  pub starved : Bool

abbrev pub fresh_session : Session
fresh_session = record {
  has_device_id = true;
  connection = none;
  closing_connection = none;
  reconnect_timer = none;
  close_barrier_timer = false;
  state_changed_token = 0;
  operation_epoch = 0;
  timer_epoch = 0;
  close_barrier_epoch = 0;
  completed_retry_attempts = 0;
  transient_open_retry_attempts = 0;
  lifecycle = idle;
  current_operation = manual_connect;
  is_incoming_enabled = false;
  is_reconnect_enabled = true;
  is_reconnect_cancelled = false;
  is_suspended = false;
  is_shutdown = false;
  open_immediately = true;
  retry_eligible = false;
  restore_incoming_after_close = false;
  resume_required = false;
  resume_open_immediately = true;
  resume_operation = resume;
  resume_requested = false;
  is_suspend_close_pending = false;
  suspend_close_epoch = 0;
  is_close_in_flight = false;
  is_close_cooldown = false;
  is_close_continuation_abandoned = false;
  pending_close_continuation = to_idle;
  pending_close_failure = success;
  pending_close_retry_eligible = false;
  pending_close_completed_attempt = false;
  pending_close_disconnect_reason = unspecified;
  calls = 0;
  facts = [];
  timer_delay = 0;
  overlap = false;
  bad_index = false;
  starved = false;
}

abbrev pub transient_open_retry_max_attempts : ℕ
transient_open_retry_max_attempts = 10

-- CloseBarrierCooldown, in milliseconds.
abbrev pub close_barrier_cooldown : ℕ
close_barrier_cooldown = 1500

-- TransientOpenRetryDelay: the table is read at `failedAttempt - 1`, none outside its bounds.
unfoldable pub transient_open_retry_delay : ℕ → Option ℕ
transient_open_retry_delay failed_attempt =
    if failed_attempt == 0
    then none
    else get_elem? (500 ∷ 1000 ∷ 1500 ∷ 2500 ∷ 4000 ∷ 6000 ∷ 8000 ∷ 8000 ∷ 8000 ∷ [])
        (failed_attempt - 1)

-- `++` of a 64-bit counter.
unfoldable pub advance : ℕ → ℕ
advance n = (n + 1) % 2 ^ 64

-- Equality of the enumerators that the code compares with.
abbrev pub same_lifecycle : Lifecycle → Lifecycle → Bool
same_lifecycle idle b = elim b [ idle ↦ true | _ ↦ false ]
same_lifecycle connecting b = elim b [ connecting ↦ true | _ ↦ false ]
same_lifecycle connected b = elim b [ connected ↦ true | _ ↦ false ]
same_lifecycle disconnecting b = elim b [ disconnecting ↦ true | _ ↦ false ]
same_lifecycle waiting_for_reconnect b = elim b [ waiting_for_reconnect ↦ true | _ ↦ false ]
same_lifecycle failed b = elim b [ failed ↦ true | _ ↦ false ]

abbrev pub is_automatic : OperationKind → Bool
is_automatic automatic_reconnect = true
is_automatic _ = false

-- The operations that keep the count of attempts, and those that may be tried again.
abbrev pub keeps_attempts : OperationKind → Bool
keeps_attempts automatic_reconnect = true
keeps_attempts incoming_enable = true
keeps_attempts _ = false

abbrev pub starts_eligible : OperationKind → Bool
starts_eligible automatic_reconnect = true
starts_eligible startup = true
starts_eligible resume = true
starts_eligible _ = false

abbrev pub is_opened : ConnectionState → Bool
is_opened opened = true
is_opened closed = false

abbrev pub is_success : ConnectionResult → Bool
is_success success = true
is_success _ = false
