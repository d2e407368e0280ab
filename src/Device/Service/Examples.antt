-- ===== src/Device/Service/Examples.antt =====
-- Tests of the service (AudioPlaybackConnector2/src/core/DeviceService.cpp), and the theorems at
-- concrete inputs.
use audio_playback_connector.Prelude.{
  ◌≡◌, ◌⊎◌, refl, true, false, none, some, [], ◌∷◌, is_some, get_elem?,
}
use audio_playback_connector.Text.{wide}
use audio_playback_connector.Text.Table.{lookup, put, keys, all_in, distinct}
use audio_playback_connector.Text.Utf16.{WString, WString-discrete}
use audio_playback_connector.Device.Session.Close.{begin_close, close_connection}
use audio_playback_connector.Device.Session.Data.{Session, Platform, Lifecycle, connecting, advance}
use audio_playback_connector.Device.Session.Connect.{
  start_created, begin_create, start_body, start_connection,
}
use audio_playback_connector.Device.Session.Control.{connect}
use audio_playback_connector.Device.Session.World.{Reach}
use audio_playback_connector.Device.Session.Policy.{handle_device_removed, set_reconnect_enabled}
use audio_playback_connector.Device.Service.Data.{
  Service, Completion, SettingsPolicy, Shown, op_cancelled, fresh_service,
}
use audio_playback_connector.Device.Service.Publish.{
  show_all, resolve_operation, resolve, settle, update_published_snapshot, publish_shown, publish,
  on_session_fact, deliver, change_session, act, for_each, create_session, get_or_create_session,
}
use audio_playback_connector.Device.Service.Commands.{
  session_of, result_of, start_operation, connect_device, reconnect_device,
}
use audio_playback_connector.Device.Service.Policy.{
  on_device_removed, enact_policy, apply_settings_policy,
}
use audio_playback_connector.Device.Service.Power.{resume_suspended_session, shutdown_service}
use audio_playback_connector.Device.Service.World.{
  device_removed, History, policy_applied, here, next, connected, shut_down,
}
use audio_playback_connector.Device.Service.Histories.{
  one_session_per_device, first_result_stays, shutdown_strands_none, policy_never_goes_back,
}
use audio_playback_connector.Device.Service.Moves.{Rises}
use audio_playback_connector.Device.Service.Supersede.{command_supersedes_recovery}

-- A platform that grants everything.
abbrev granting : WString → Platform
granting = λ id. record {
  creates = λ n. true;
  registers = λ n. some 7;
  starts = λ n. true;
  opens = λ n. true;
  schedules = λ n. true;
}

abbrev headset : WString
headset = wide "h"

-- The user connects a device.
asked : Service
asked = (connect_device granting headset fresh_service).0

History-asked : History granting fresh_service asked
unfolding asked
History-asked = next here (connected headset refl)

asked_session : lookup headset asked.sessions ≡ some (session_of headset asked)
unfolding asked connect_device get_or_create_session create_session start_operation result_of act
    change_session deliver on_session_fact publish_shown update_published_snapshot
    set_reconnect_enabled connect start_connection start_body begin_create start_created advance
    lookup put WString-discrete
asked_session = refl

-- And then the device is taken away.
gone : Service
gone = on_device_removed granting headset asked

gone_runs : gone.is_shutdown ≡ false
unfolding gone on_device_removed handle_device_removed asked connect_device get_or_create_session
    create_session start_operation result_of act change_session deliver on_session_fact publish
    publish_shown update_published_snapshot set_reconnect_enabled connect start_connection
    start_body begin_create start_created begin_close close_connection advance lookup put
    WString-discrete
gone_runs = refl

one_session_per_device_example :
    (new : Session) × (lookup headset gone.sessions ≡ some new)
    × Reach (granting headset) (session_of headset asked) new
    × ((new.is_close_in_flight ≡ false) ⊎ (new.connection ≡ none))
    × (new.overlap ≡ false)
unfolding gone
one_session_per_device_example =
    one_session_per_device headset (session_of headset asked) History-asked asked_session
      (next here (device_removed headset)) gone_runs

-- The connection is under way.
abbrev waiting : Completion
waiting = record {
  device_id = headset;
  epoch = 1;
  owns_cancellation = true;
  status = none;
  pending = true;
}

asked_waits :
    (asked.completions ≡ waiting ∷ []) × ((session_of headset asked).lifecycle ≡ connecting)
unfolding asked connect_device get_or_create_session create_session start_operation result_of act
    change_session deliver on_session_fact publish_shown update_published_snapshot
    set_reconnect_enabled connect start_connection start_body begin_create start_created advance
    show_all settle resolve_operation lookup put WString-discrete
asked_waits = (refl, refl)

-- The program ends.
ended : Service
ended = shutdown_service asked

History-ended : History granting fresh_service ended
unfolding ended
History-ended = next History-asked shut_down

abbrev given_up : Completion
given_up = record waiting { status = some op_cancelled; pending = false }

ended_completion : get_elem? ended.completions 0 ≡ some given_up
unfolding ended asked shutdown_service publish connect_device get_or_create_session create_session
    start_operation result_of act change_session deliver on_session_fact publish_shown
    update_published_snapshot set_reconnect_enabled connect start_connection start_body begin_create
    start_created advance show_all settle resolve resolve_operation lookup put WString-discrete
ended_completion = refl

ended_is_shut_down : ended.is_shutdown ≡ true
unfolding ended asked shutdown_service publish connect_device get_or_create_session create_session
    start_operation result_of act change_session deliver on_session_fact publish_shown
    update_published_snapshot set_reconnect_enabled connect start_connection start_body begin_create
    start_created advance show_all settle resolve resolve_operation lookup put WString-discrete
ended_is_shut_down = refl

shutdown_strands_none_example : (is_some given_up.status ≡ true) × (ended.sessions ≡ [])
shutdown_strands_none_example =
    shutdown_strands_none 0 given_up History-ended ended_is_shut_down ended_completion

first_result_stays_example :
    (d : Completion) × (get_elem? (shutdown_service ended).completions 0 ≡ some d)
    × (d.device_id ≡ headset)
    × (d.epoch ≡ 1)
    × (d.status ≡ some op_cancelled)
first_result_stays_example =
    first_result_stays {v = granting} 0 given_up op_cancelled (next here shut_down) ended_completion
      refl

-- The settings are applied twice, the newer ones first.
abbrev policy : SettingsPolicy
policy = record {
  revision = 5;
  allow_incoming_connections = false;
  global_reconnect_on_connection_loss = false;
  reconnect_device_ids = headset ∷ [];
  stop_requested = false;
}

abbrev older_policy : SettingsPolicy
older_policy = record policy { revision = 4; global_reconnect_on_connection_loss = true }

followed : Service
followed = apply_settings_policy granting policy [] fresh_service

followed_again : Service
followed_again = apply_settings_policy granting older_policy [] followed

-- The older ones change nothing.
older_is_ignored : followed_again ≡ followed
unfolding followed_again followed apply_settings_policy enact_policy for_each keys distinct all_in
older_is_ignored = refl

policy_never_goes_back_example :
    Rises followed.settings_policy_revision followed_again.settings_policy_revision
unfolding followed_again
policy_never_goes_back_example =
    policy_never_goes_back {v = granting} (next here (policy_applied older_policy []))

abbrev up : Shown
up = record { lifecycle = Lifecycle.connected; operation_epoch = 1 }

-- A recovery of the device was planned.
abbrev planned : Service
planned = record fresh_service { recovery_epochs = (headset, 0) ∷ [] }

command_supersedes_recovery_example :
    (resume_suspended_session granting headset (connect_device granting headset planned).0
      ≡ (connect_device granting headset planned).0)
    × (resume_suspended_session granting headset (reconnect_device granting headset planned).0
        ≡ (reconnect_device granting headset planned).0)
command_supersedes_recovery_example = command_supersedes_recovery granting headset planned refl
