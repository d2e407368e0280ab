-- ===== src/Device/Service/Data.antt =====
-- The types of the service and its state: AudioPlaybackConnector2/include/core/DeviceService.hpp, and
-- `DeviceService::State` of AudioPlaybackConnector2/src/core/DeviceService.cpp.
use audio_playback_connector.Prelude.{ℕ, Bool, true, false, Option, none, List, []}
use audio_playback_connector.Text.Table.{Table}
use audio_playback_connector.Text.Utf16.{WString}
use audio_playback_connector.Device.Session.Data.{
  Session, Lifecycle, OperationKind, ConnectionResult, DisconnectReason,
}

pub data CommandKind : Type 0 where
  connect_command disconnect_command reconnect_command disconnect_all reconnect_all start_command
        stop_command suspend_command resume_command shutdown_command :
      CommandKind

pub data ResultKind : Type 0 where
  accepted coalesced rejected withdrawn : ResultKind

pub data OperationStatus : Type 0 where
  op_succeeded op_failed op_cancelled op_timed_out op_rejected : OperationStatus

pub data FactKind : Type 0 where
  inventory_changed session_changed operation_failed shutdown_fact : FactKind

-- What a snapshot shows of a session, of the parts that the service reads.
pub record Shown : Type 0 where
  pub lifecycle : Lifecycle
  pub operation_epoch : ℕ

-- `DeviceServiceSnapshot`, without the inventory.
pub record Snapshot : Type 0 where
  pub generation : ℕ
  pub is_running : Bool
  pub is_suspended : Bool
  pub is_shutdown : Bool
  pub sessions : Table Shown

-- `DeviceOperationCompletion`; `pending` while `PendingOperations` holds it.
pub record Completion : Type 0 where
  pub device_id : WString
  pub epoch : ℕ
  pub owns_cancellation : Bool
  pub status : Option OperationStatus
  pub pending : Bool

-- `DeviceFact`, with the generation of its snapshot.
pub record ServiceFact : Type 0 where
  pub kind : FactKind
  pub generation : ℕ
  pub device_id : WString
  pub result : ConnectionResult
  pub operation : OperationKind
  pub is_terminal_failure : Bool
  pub disconnect_reason : DisconnectReason

-- `DeviceCommandResult`; the completion is the number of one in the service.
pub record CommandResult : Type 0 where
  pub command : CommandKind
  pub kind : ResultKind
  pub device_id : WString
  pub operation_epoch : ℕ
  pub completion : Option ℕ

-- `DeviceService::State`. The completions are kept in the order of their creation, also when they
-- are no longer pending; the facts that the subscriber received are kept, newest first.
pub record Service : Type 0 where
  pub sessions : Table Session
  pub completions : List Completion
  pub individually_reconnect_enabled : List WString
  pub recovery_epochs : Table ℕ
  pub active_subscription : ℕ
  pub next_subscription : ℕ
  pub generation : ℕ
  pub is_running : Bool
  pub is_suspended : Bool
  pub is_shutdown : Bool
  pub is_incoming_enabled : Bool
  pub is_global_reconnect_enabled : Bool
  pub settings_policy_revision : Option ℕ
  pub published : Snapshot
  pub facts : List ServiceFact

-- A service after `Initialize`.
abbrev pub fresh_service : Service
fresh_service = record {
  sessions = [];
  completions = [];
  individually_reconnect_enabled = [];
  recovery_epochs = [];
  active_subscription = 0;
  next_subscription = 1;
  generation = 0;
  is_running = false;
  is_suspended = false;
  is_shutdown = false;
  is_incoming_enabled = false;
  is_global_reconnect_enabled = true;
  settings_policy_revision = none;
  published = record {
    generation = 0;
    is_running = false;
    is_suspended = false;
    is_shutdown = false;
    sessions = [];
  };
  facts = [];
}

-- `DeviceSettingsPolicy`, whose stop token has, or has not, been asked to stop.
pub record SettingsPolicy : Type 0 where
  pub revision : ℕ
  pub allow_incoming_connections : Bool
  pub global_reconnect_on_connection_loss : Bool
  pub reconnect_device_ids : List WString
  pub stop_requested : Bool
