-- ===== src/Device/Service/Policies.antt =====
-- What the settings' policy, the startup targets and the watcher keep of `DeviceService`
-- (AudioPlaybackConnector2/src/core/DeviceService.cpp).
use audio_playback_connector.Prelude.{
  ℕ, ◌≡◌, Bool, true, false, not, ◌&&◌, ◌||◌, Option, none, some, List, if◌then◌else◌, arith,
}
use audio_playback_connector.Text.{is_empty}
use audio_playback_connector.Device.Session.World.{
  here, connects, enables_reconnect, enables_incoming, renames, removed,
}
use audio_playback_connector.Text.Table.{Table, keys}
use audio_playback_connector.Text.Utf16.{WString}
use audio_playback_connector.Device.Session.Data.{Platform, startup}
use audio_playback_connector.Device.Session.Policy.{set_reconnect_enabled}
use audio_playback_connector.Device.Session.Control.{rename}
use audio_playback_connector.Device.Service.Data.{Service, SettingsPolicy}
use audio_playback_connector.Device.Service.Publish.{act, get_or_create_session, for_each_session}
use audio_playback_connector.Device.Service.Policy.{
  with_policy, reconnect_changes, incoming_changes, enact_policy, is_newer, may_reconnect,
  apply_to_session, apply_settings_policy, connect_target, connect_startup_targets, on_device_added,
  on_device_removed,
}
use audio_playback_connector.Device.Service.Tasks.{get_or_create_session-Moves}
use audio_playback_connector.Device.Service.Moves.{
  Rises-refl, lived, Grows-refl, Moves, Rises, Moves-refl, Moves-trans, if-Moves,
}
use audio_playback_connector.Device.Service.Pieces.{publish-Moves, act-Moves, for_each-Moves}

-- Parts of the state that the invariant does not speak of.
pub aside-Moves :
    {v : WString → Platform} (s : Service) (running suspended : Bool) (epochs : Table ℕ)
    (active next : ℕ)
    → Moves v s (record s {
      is_running = running;
      is_suspended = suspended;
      recovery_epochs = epochs;
      active_subscription = active;
      next_subscription = next;
    })
aside-Moves s r u e a n = record {
  sound = λ h. h;
  grows = Grows-refl _;
  rises = Rises-refl _;
  lives = λ id old e. lived e here;
  down = λ h. h;
}

-- A policy that is newer raises the revision.
policy-Moves :
    {v : WString → Platform} (policy : SettingsPolicy) (s : Service)
    → is_newer policy.revision s.settings_policy_revision ≡ true
    → Moves v s (with_policy policy s)
policy-Moves policy s h = record {
  sound = λ k. k;
  grows = Grows-refl _;
  rises = rising s.settings_policy_revision h;
  lives = λ id old e. lived e here;
  down = λ h. h;
}
  where
    rising : (r : Option ℕ) → is_newer policy.revision r ≡ true → Rises r (some policy.revision)
    rising none h = tt
    rising (some m) h = ground arith

third_true : (a b c : Bool) → (a || b || not c) ≡ false → c ≡ true
third_true a b c h = ground arith

module _ (v : WString → Platform) where
  apply_to_session-Moves :
      (a b : Bool) (policy : Service) (id : WString) (s : Service)
      → Moves v s (apply_to_session v a b policy id s)
  unfolding apply_to_session
  apply_to_session-Moves a b policy id s =
      let enabled : Moves v s
          (if a then act id (set_reconnect_enabled (v id) (may_reconnect policy id)) s else s) =
        if-Moves a (λ e. act-Moves id _ s λ t. enables_reconnect _) (λ e. Moves-refl s) in
      if-Moves b (λ e. Moves-trans enabled (act-Moves id _ _ λ t. enables_incoming _))
        (λ e. enabled)

  enact_policy-Moves :
      (policy : SettingsPolicy) (ids : List WString) (s : Service)
      → is_newer policy.revision s.settings_policy_revision ≡ true
      → Moves v s (enact_policy v policy ids s)
  unfolding enact_policy
  enact_policy-Moves policy ids s h =
      let told = Moves-trans (policy-Moves policy s h) (
        for_each-Moves (keys s.sessions) _ _ (
          apply_to_session-Moves (reconnect_changes policy s) (incoming_changes policy s)
            (with_policy policy s))) in
      if-Moves
        (incoming_changes policy s
          && (for_each_session
              (apply_to_session v (reconnect_changes policy s) (incoming_changes policy s)
                (with_policy policy s))
              (with_policy policy s)).is_incoming_enabled)
        (λ e. Moves-trans told (for_each-Moves ids _ _ (get_or_create_session-Moves v))) (λ e. told)

  pub apply_settings_policy-Moves :
      (policy : SettingsPolicy) (ids : List WString) (s : Service)
      → Moves v s (apply_settings_policy v policy ids s)
  unfolding apply_settings_policy
  apply_settings_policy-Moves policy ids s =
      if-Moves
        (s.is_shutdown
          || policy.stop_requested
          || not (is_newer policy.revision s.settings_policy_revision))
        (λ e. Moves-refl s)
        (λ e. enact_policy-Moves policy ids s (third_true s.is_shutdown policy.stop_requested _ e))

  connect_target-Moves : (id : WString) (s : Service) → Moves v s (connect_target v id s)
  unfolding connect_target
  connect_target-Moves id s =
      if-Moves (is_empty id) (λ e. Moves-refl s)
        λ e.
          Moves-trans (get_or_create_session-Moves v id s)
            (act-Moves id _ _ λ t. connects startup true)

  pub connect_startup_targets-Moves :
      (ids : List WString) (s : Service) → Moves v s (connect_startup_targets v ids s)
  unfolding connect_startup_targets
  connect_startup_targets-Moves ids s =
      if-Moves (s.is_shutdown || s.is_suspended) (λ e. Moves-refl s)
        λ e. for_each-Moves ids _ s connect_target-Moves

  pub on_device_added-Moves : (id : WString) (s : Service) → Moves v s (on_device_added v id s)
  unfolding on_device_added
  on_device_added-Moves id s =
      let named : Moves v s (act id rename (get_or_create_session v id s)) =
        Moves-trans (get_or_create_session-Moves v id s) (act-Moves id _ _ (λ t. renames)) in
      if-Moves s.is_shutdown (λ e. Moves-refl s)
        λ e.
          Moves-trans
            (if-Moves (act id rename (get_or_create_session v id s)).is_incoming_enabled
              (λ f. Moves-trans named (act-Moves id _ _ λ t. enables_incoming true)) (λ f. named))
            (publish-Moves _ _ _)

  pub on_device_removed-Moves : (id : WString) (s : Service) → Moves v s (on_device_removed v id s)
  unfolding on_device_removed
  on_device_removed-Moves id s =
      if-Moves s.is_shutdown (λ e. Moves-refl s)
        λ e. Moves-trans (act-Moves id _ s λ t. removed) (publish-Moves _ _ _)
