-- ===== src/Device/Service/World.antt =====
-- A service's history: its tasks and its sessions' callbacks, in any order and with any arguments, each
-- run to its end on the serialized queue (AudioPlaybackConnector2/src/core/DeviceService.cpp).
use audio_playback_connector.Prelude.{ℕ, ◌≡◌, Bool, false, some, List, get_elem?}
use audio_playback_connector.Text.{is_empty}
use audio_playback_connector.Text.Table.{lookup}
use audio_playback_connector.Text.Utf16.{WString}
use audio_playback_connector.Device.Session.Data.{Session, Platform}
use audio_playback_connector.Device.Session.World.{
  Step, starts, opens, changes, post_failed, closes, cools, retries, reopens,
}
use audio_playback_connector.Device.Service.Data.{Service, SettingsPolicy, Completion}
use audio_playback_connector.Device.Service.Publish.{change_session}
use audio_playback_connector.Device.Service.Commands.{
  connect_device, reconnect_device, disconnect_device, cancel_reconnect_device,
  cancel_pending_reconnects, disconnect_all_devices, reconnect_all_devices, give_up, start_service,
  stop_service,
}
use audio_playback_connector.Device.Service.Policy.{
  apply_settings_policy, connect_startup_targets, on_device_added, on_device_removed,
  on_inventory_fact, subscribe, unsubscribe,
}
use audio_playback_connector.Device.Service.Power.{
  suspend_service, resume_service, resume_after_power_transition, resume_suspended_sessions,
  shutdown_service,
}

-- The steps of a session that the platform and the timers cause.
abbrev pub IsCallback : {p : Platform} {s t : Session} → Step p s t → Type 0
IsCallback (starts epoch h r) = Unit
IsCallback (opens epoch h r b) = Unit
IsCallback (changes epoch h c) = Unit
IsCallback (post_failed epoch h) = Unit
IsCallback (closes barrier b) = Unit
IsCallback (cools barrier) = Unit
IsCallback (retries timer op) = Unit
IsCallback (reopens timer op c) = Unit
IsCallback _ = ⊥

module _ (v : WString → Platform) where
  pub data Task (s : Service) : Service → Type 0 where
    connected : (id : WString) → is_empty id ≡ false → Task s (connect_device v id s).0
    reconnected : (id : WString) → is_empty id ≡ false → Task s (reconnect_device v id s).0
    disconnected : (id : WString) → is_empty id ≡ false → Task s (disconnect_device v id s).0
    reconnect_cancelled :
        (id : WString) → is_empty id ≡ false → Task s (cancel_reconnect_device v id s).0
    reconnects_cancelled : Task s (cancel_pending_reconnects v s).0
    all_disconnected : Task s (disconnect_all_devices v s).0
    all_reconnected : Task s (reconnect_all_devices v s).0
    gave_up : (n : ℕ) (c : Completion) → get_elem? s.completions n ≡ some c → Task s (give_up v c s)
    started : (b : Bool) → Task s (start_service b s).0
    stopped : Task s (stop_service s).0
    policy_applied :
        (policy : SettingsPolicy) (inventory : List WString)
        → Task s (apply_settings_policy v policy inventory s)
    targets_connected : (ids : List WString) → Task s (connect_startup_targets v ids s)
    device_added : (id : WString) → Task s (on_device_added v id s)
    device_removed : (id : WString) → Task s (on_device_removed v id s)
    inventory_read : (id : WString) → Task s (on_inventory_fact id s)
    subscribed : Task s (subscribe s).0
    unsubscribed : (n : ℕ) → Task s (unsubscribe n s)
    suspended : Task s (suspend_service v s).0
    resumed : (b : Bool) → Task s (resume_service v b s)
    power_resumed : (b : Bool) → Task s (resume_after_power_transition v b s)
    sessions_resumed : (ids : List WString) → Task s (resume_suspended_sessions v ids s)
    shut_down : Task s (shutdown_service s)
    called_back :
        (id : WString) (old new : Session) (step : Step (v id) old new)
        → lookup id s.sessions ≡ some old
        → IsCallback step
        → Task s (change_session id old new s)

  pub data History (s : Service) : Service → Type 0 where
    here : History s s
    next : {t u : Service} → History s t → Task t u → History s u
