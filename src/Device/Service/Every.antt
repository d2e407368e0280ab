-- ===== src/Device/Service/Every.antt =====
-- What every task of `DeviceService` (AudioPlaybackConnector2/src/core/DeviceService.cpp) keeps.
use audio_playback_connector.Prelude.{ℕ, ◌==◌}
use audio_playback_connector.Text.Utf16.{WString}
use audio_playback_connector.Device.Session.Data.{Platform}
use audio_playback_connector.Device.Service.Data.{Service}
use audio_playback_connector.Device.Service.Policy.{on_inventory_fact, subscribe, unsubscribe}
use audio_playback_connector.Device.Service.World.{
  Task, connected, reconnected, disconnected, reconnect_cancelled, reconnects_cancelled,
  all_disconnected, all_reconnected, gave_up, started, stopped, policy_applied, targets_connected,
  device_added, device_removed, inventory_read, subscribed, unsubscribed, suspended, resumed,
  power_resumed, sessions_resumed, shut_down, called_back,
}
use audio_playback_connector.Device.Service.Tasks.{
  connect_device-Replies, reconnect_device-Replies, disconnect_device-Replies,
  cancel_reconnect_device-Replies, cancel_pending_reconnects-Replies,
  disconnect_all_devices-Replies, reconnect_all_devices-Replies, give_up-Moves,
  start_service-Replies, stop_service-Replies,
}
use audio_playback_connector.Device.Service.Moves.{Moves, Moves-refl, if-Moves, if-Replies, Replies}
use audio_playback_connector.Device.Service.Pieces.{publish-Moves, change_session-Moves}
use audio_playback_connector.Device.Service.Policies.{
  aside-Moves, apply_settings_policy-Moves, connect_startup_targets-Moves, on_device_added-Moves,
  on_device_removed-Moves,
}
use audio_playback_connector.Device.Service.Transitions.{
  suspend_service-Replies, resume_service-Moves, resume_after-Moves,
  resume_suspended_sessions-Moves, shutdown_service-Moves,
}

on_inventory_fact-Moves :
    {v : WString → Platform} (id : WString) (s : Service) → Moves v s (on_inventory_fact id s)
unfolding on_inventory_fact
on_inventory_fact-Moves id s = if-Moves s.is_shutdown (λ e. Moves-refl s) (λ e. publish-Moves _ _ _)

subscribe-Replies : {v : WString → Platform} (s : Service) → Replies v s (subscribe s)
unfolding subscribe
subscribe-Replies s =
    if-Replies s.is_shutdown (λ e. record { moved = Moves-refl s })
      λ e. record { moved = aside-Moves s s.is_running s.is_suspended s.recovery_epochs _ _ }

unsubscribe-Moves : {v : WString → Platform} (n : ℕ) (s : Service) → Moves v s (unsubscribe n s)
unfolding unsubscribe
unsubscribe-Moves n s =
    if-Moves (s.active_subscription == n)
      (λ e. aside-Moves s s.is_running s.is_suspended s.recovery_epochs 0 s.next_subscription)
      (λ e. Moves-refl s)

-- Every task and every callback.
pub Task-Moves : {v : WString → Platform} {s t : Service} → Task v s t → Moves v s t
Task-Moves {v} {s} (connected id k) = (connect_device-Replies v id s).moved
Task-Moves {v} {s} (reconnected id k) = (reconnect_device-Replies v id s).moved
Task-Moves {v} {s} (disconnected id k) = (disconnect_device-Replies v id s).moved
Task-Moves {v} {s} (reconnect_cancelled id k) = (cancel_reconnect_device-Replies v id s).moved
Task-Moves {v} {s} reconnects_cancelled = (cancel_pending_reconnects-Replies v s).moved
Task-Moves {v} {s} all_disconnected = (disconnect_all_devices-Replies v s).moved
Task-Moves {v} {s} all_reconnected = (reconnect_all_devices-Replies v s).moved
Task-Moves {v} {s} (gave_up n c k) = give_up-Moves v c s
Task-Moves {v} {s} (started b) = (start_service-Replies b s).moved
Task-Moves {v} {s} stopped = (stop_service-Replies s).moved
Task-Moves {v} {s} (policy_applied policy ids) = apply_settings_policy-Moves v policy ids s
Task-Moves {v} {s} (targets_connected ids) = connect_startup_targets-Moves v ids s
Task-Moves {v} {s} (device_added id) = on_device_added-Moves v id s
Task-Moves {v} {s} (device_removed id) = on_device_removed-Moves v id s
Task-Moves {v} {s} (inventory_read id) = on_inventory_fact-Moves id s
Task-Moves {v} {s} subscribed = (subscribe-Replies s).moved
Task-Moves {v} {s} (unsubscribed n) = unsubscribe-Moves n s
Task-Moves {v} {s} suspended = (suspend_service-Replies v s).moved
Task-Moves {v} {s} (resumed b) = resume_service-Moves v b s
Task-Moves {v} {s} (power_resumed b) = resume_after-Moves v b s
Task-Moves {v} {s} (sessions_resumed ids) = resume_suspended_sessions-Moves v ids s
Task-Moves {v} {s} shut_down = shutdown_service-Moves s
Task-Moves {v} {s} (called_back id old new step e c) = change_session-Moves id old new s e step
