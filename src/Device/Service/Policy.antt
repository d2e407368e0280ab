-- ===== src/Device/Service/Policy.antt =====
-- The settings' policy, the startup targets, the watcher and the subscription of `DeviceService`
-- (AudioPlaybackConnector2/src/core/DeviceService.cpp).
use audio_playback_connector.Prelude.{
  ℕ, Bool, true, not, ◌&&◌, ◌||◌, Option, none, some, List, if◌then◌else◌, ◌==◌, leb, differs,
}
use audio_playback_connector.Text.{is_empty, contains}
use audio_playback_connector.Text.Table.{same_set, distinct}
use audio_playback_connector.Text.Utf16.{WString}
use audio_playback_connector.Device.Session.Data.{startup, Platform, advance}
use audio_playback_connector.Device.Session.Policy.{set_reconnect_enabled, handle_device_removed}
use audio_playback_connector.Device.Session.Control.{connect, set_incoming_enabled, rename}
use audio_playback_connector.Device.Service.Data.{Service, SettingsPolicy, inventory_changed}
use audio_playback_connector.Device.Service.Publish.{
  publish, act, for_each, for_each_session, get_or_create_session,
}

-- Whether a session may connect again on its own.
abbrev pub may_reconnect : Service → WString → Bool
may_reconnect s id = s.is_global_reconnect_enabled || contains s.individually_reconnect_enabled id

abbrev pub is_newer : ℕ → Option ℕ → Bool
is_newer revision none = true
is_newer revision (some r) = not (leb revision r)

abbrev pub reconnect_changes : SettingsPolicy → Service → Bool
reconnect_changes policy s =
    differs s.is_global_reconnect_enabled policy.global_reconnect_on_connection_loss
    || not (same_set s.individually_reconnect_enabled (distinct policy.reconnect_device_ids))

abbrev pub incoming_changes : SettingsPolicy → Service → Bool
incoming_changes policy s = differs s.is_incoming_enabled policy.allow_incoming_connections

abbrev pub with_policy : SettingsPolicy → Service → Service
with_policy policy s = record s {
  settings_policy_revision = some policy.revision;
  is_global_reconnect_enabled = policy.global_reconnect_on_connection_loss;
  individually_reconnect_enabled = distinct policy.reconnect_device_ids;
  is_incoming_enabled = policy.allow_incoming_connections;
}

module _ (platform : WString → Platform) where
  -- The body of the loop over the sessions, under the new policy `s`.
  unfoldable pub apply_to_session : Bool → Bool → Service → WString → Service → Service
  apply_to_session reconnect_changed incoming_changed s id t =
      let enabled = act id (set_reconnect_enabled (platform id) (may_reconnect s id)) t in
      let u = if reconnect_changed then enabled else t in
      let incoming = act id (set_incoming_enabled (platform id) s.is_incoming_enabled) u in
      if incoming_changed then incoming else u

  -- The part of ApplySettingsPolicy behind its early return, with the devices of the watcher's
  -- inventory.
  unfoldable pub enact_policy : SettingsPolicy → List WString → Service → Service
  enact_policy policy inventory s =
      let t = with_policy policy s in
      let u =
        for_each_session
          (apply_to_session (reconnect_changes policy s) (incoming_changes policy s) t) t in
      let listening = for_each inventory (get_or_create_session platform) u in
      if incoming_changes policy s && u.is_incoming_enabled then listening else u

  unfoldable pub apply_settings_policy : SettingsPolicy → List WString → Service → Service
  apply_settings_policy policy inventory s =
      let enacted = enact_policy policy inventory s in
      if s.is_shutdown
        || policy.stop_requested
        || not (is_newer policy.revision s.settings_policy_revision)
      then s
      else enacted

  -- The body of ConnectStartupTargets' loop.
  unfoldable pub connect_target : WString → Service → Service
  connect_target id s =
      let t = get_or_create_session platform id s in
      if is_empty id then s else act id (connect (platform id) startup true) t

  unfoldable pub connect_startup_targets : List WString → Service → Service
  connect_startup_targets ids s =
      if s.is_shutdown || s.is_suspended then s else for_each ids connect_target s

  -- OnWatcherFact, for a device that was added, one that was removed, and the other facts.
  unfoldable pub on_device_added : WString → Service → Service
  on_device_added id s =
      let t = act id rename (get_or_create_session platform id s) in
      let incoming = act id (set_incoming_enabled (platform id) true) t in
      if s.is_shutdown
      then s
      else publish inventory_changed id (if t.is_incoming_enabled then incoming else t)

  unfoldable pub on_device_removed : WString → Service → Service
  on_device_removed id s =
      if s.is_shutdown
      then s
      else publish inventory_changed id (act id (handle_device_removed (platform id)) s)

unfoldable pub on_inventory_fact : WString → Service → Service
on_inventory_fact id s = if s.is_shutdown then s else publish inventory_changed id s

-- Subscribe, whose sink receives the facts, with the number it returns; the counter is not taken
-- to its end.
unfoldable pub subscribe : Service → Service × ℕ
subscribe s = if s.is_shutdown then (s, 0) else (
  record s {
    active_subscription = s.next_subscription;
    next_subscription = advance s.next_subscription;
  },
  s.next_subscription,
)

unfoldable pub unsubscribe : ℕ → Service → Service
unsubscribe subscription s =
    if s.active_subscription == subscription then record s { active_subscription = 0 } else s
