-- ===== src/App/Examples.antt =====
-- Runs of the application's policies, and the theorems applied to them.
use audio_playback_connector.Prelude.{
  ◌≤◌, arith, ◌≡◌, refl, ◌⊎◌, true, false, none, some, List, [], ◌∷◌,
}
use audio_playback_connector.Text.Utf16.{WString, WString-discrete}
use audio_playback_connector.App.Fence.{
  connected, error, connection_channel, Token, Devices, update_connection, update_status, observe,
  is_current,
}
use audio_playback_connector.App.Fence.Tokens.{observe_all, superseded_stays_stale}
use audio_playback_connector.App.Schedule.{
  fresh_schedule, supersede, consumes, polls, sets, wakes, taken_at_most_once,
}
use audio_playback_connector.App.ResourcePressure.{
  ResourcePressureValues, ResourcePressureProbe, high, low, available,
}
use audio_playback_connector.App.StartupRequest.{
  complete_current, record_request, request_desired, OperationToken, complete, completion,
  superseded, wanted,
}
use audio_playback_connector.App.StartupRequest.Latest.{
  Call, asks, completes, run, Falling, CompletesFlying, starts_latest, latest_is_served,
}

abbrev first : OperationToken
first = record { revision = 1; kind = wanted; desired = true }

abbrev second : OperationToken
second = record { revision = 2; kind = wanted; desired = false }

-- One request is under way, and another has come.
abbrev two_requests : List Call
two_requests = asks false ∷ asks true ∷ []

starts_latest_example :
    let s = (run two_requests).0 in
    let t = (run (completes first true ∷ two_requests)).0 in
    (t.in_flight ≡ some second)
    × (t.latest_request ≡ some second)
    × Falling 1 (run two_requests).1
    × ((s.in_flight ≡ none) ⊎ CompletesFlying (completes first true) s)
unfolding run request_desired record_request complete complete_current
starts_latest_example = starts_latest two_requests (completes first true) refl

latest_is_served_example :
    let s = (run two_requests).0 in
    (f : OperationToken) × (s.in_flight ≡ some f)
    × ((f ≡ second)
        ⊎ (complete f true s
            ≡ (record s { in_flight = some second }, completion superseded (some second))))
unfolding run request_desired record_request
latest_is_served_example = latest_is_served two_requests second true refl refl

abbrev headset : WString
headset = 1 ∷ 2 ∷ []

-- The headset connects, and then is lost.
abbrev seen : Devices
seen = observe_all ((headset, connected) ∷ []) (λ k. none)

abbrev seen_token : Token
seen_token = record { device_id = headset; generation = 1; fact_channel = connection_channel }

abbrev after_loss : Devices
after_loss = observe_all ((headset, error) ∷ (headset, connected) ∷ []) (λ k. none)

superseded_stays_stale_example :
    is_current seen_token (observe_all ((headset, connected) ∷ []) after_loss) ≡ false
unfolding observe is_current update_connection update_status WString-discrete
superseded_stays_stale_example =
    superseded_stays_stale seen_token ((headset, connected) ∷ []) after_loss (refl, omega arith)
      refl

taken_at_most_once_example :
    (wakes (consumes 1 ∷ polls 9 ∷ sets 1 5 ∷ []) (supersede fresh_schedule).0).1 ≤ 1
taken_at_most_once_example =
    taken_at_most_once (consumes 1 ∷ polls 9 ∷ sets 1 5 ∷ []) fresh_schedule

abbrev calm : ResourcePressureValues
calm = record { memory = high; user_activity = available; energy_saver = some false }

abbrev silent_probe : ResourcePressureProbe
silent_probe = record {
  low_memory_signaled = none;
  high_memory_signaled = none;
  user_activity = none;
  energy_saver = none;
  memory_probe_attempted = true;
  user_activity_probe_attempted = false;
  energy_saver_probe_attempted = false;
}

abbrev strained : ResourcePressureValues
strained = record { memory = low; user_activity = available; energy_saver = some false }
