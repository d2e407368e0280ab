-- ===== src/App/Fence.antt =====
-- `DeviceFactPublicationFence` (AudioPlaybackConnector2/include/app/DeviceFactPublicationFence.hpp):
-- tokens that tell a queued presentation of a device's state whether a newer fact has come.
pub mod Tokens
use audio_playback_connector.Text.{same}
use audio_playback_connector.Text.Utf16.{WString}
use audio_playback_connector.Prelude.{
  ℕ, zero, suc, ◌+◌, ◌-◌, ◌*◌, ◌/◌, ◌%◌, ◌^◌, ◌≤◌, ◌<◌, ◌≡◌, refl, sym, ap, subst, ◌∙◌, ◌≢◌, ◌↔◌,
  ◌⊎◌, inl, inr, Bool, true, false, not, ◌&&◌, ◌||◌, Option, none, some, List, [], ◌∷◌, ◌++◌, arith,
  ltb, leb, ◌==◌, if◌then◌else◌, differs, holds, is_some, Bool-cases, Option-cases, length, take,
  u64_max, length-append, All,
}
use Prim.Native.Nat.{min, max}

pub data Status : Type 0 where
  nothing_seen ready connecting reconnecting connected error waiting_for_reconnect : Status

pub data Channel : Type 0 where
  connection_channel status_channel : Channel

pub record Token : Type 0 where
  pub device_id : WString
  pub generation : ℕ
  pub fact_channel : Channel

pub record Observation : Type 0 where
  pub was_connected : Bool
  pub was_waiting_for_reconnect : Bool
  pub connection : Token
  pub state : Token

pub record DeviceState : Type 0 where
  pub is_connected : Bool
  pub current_status : Status
  pub connection_generation : ℕ
  pub status_generation : ℕ
  pub is_generation_exhausted : Bool

abbrev pub fresh_device : DeviceState
fresh_device = record {
  is_connected = false;
  current_status = nothing_seen;
  connection_generation = 0;
  status_generation = 0;
  is_generation_exhausted = false;
}

-- The map of the devices.
abbrev pub Devices : Type 0
Devices = WString → Option DeviceState

abbrev pub same_status : Status → Status → Bool
same_status nothing_seen b = elim b [ nothing_seen ↦ true | _ ↦ false ]
same_status ready b = elim b [ ready ↦ true | _ ↦ false ]
same_status connecting b = elim b [ connecting ↦ true | _ ↦ false ]
same_status reconnecting b = elim b [ reconnecting ↦ true | _ ↦ false ]
same_status connected b = elim b [ connected ↦ true | _ ↦ false ]
same_status error b = elim b [ error ↦ true | _ ↦ false ]
same_status waiting_for_reconnect b = elim b [ waiting_for_reconnect ↦ true | _ ↦ false ]

-- AdvanceGeneration: the next generation, and whether it ran out.
abbrev pub advanced : ℕ → ℕ × Bool
advanced generation = if generation == u64_max then (generation, true) else (generation + 1, false)

unfoldable pub update_connection : Bool → DeviceState → DeviceState
update_connection now_connected d =
    let (g, out) = advanced d.connection_generation in
    if not (differs d.is_connected now_connected) then d else record d {
      is_connected = now_connected;
      connection_generation = g;
      is_generation_exhausted = d.is_generation_exhausted || out;
    }

unfoldable pub update_status : Status → DeviceState → DeviceState
update_status status d =
    let (g, out) = advanced d.status_generation in
    if same_status d.current_status status then d else record d {
      current_status = status;
      status_generation = g;
      is_generation_exhausted = d.is_generation_exhausted || out;
    }

-- `m_devices[id]`, which makes an entry where there is none.
abbrev pub device_or_fresh : Option DeviceState → DeviceState
device_or_fresh none = fresh_device
device_or_fresh (some d) = d

-- The state of the device after a fact.
abbrev pub after_fact : Status → DeviceState → DeviceState
after_fact status d = update_status status (update_connection (same_status status connected) d)

unfoldable pub observe : WString → Status → Devices → Devices × Observation
observe id status ds =
    let d = device_or_fresh (ds id) in
    let e = after_fact status d in
    (
      λ k. if same k id then some e else ds k,
      record {
        was_connected = d.is_connected;
        was_waiting_for_reconnect = same_status d.current_status waiting_for_reconnect;
        connection = record {
          device_id = id;
          generation = e.connection_generation;
          fact_channel = connection_channel;
        };
        state = record {
          device_id = id;
          generation = e.status_generation;
          fact_channel = status_channel;
        };
      },
    )

abbrev pub generation_of : Channel → DeviceState → ℕ
generation_of connection_channel d = d.connection_generation
generation_of status_channel d = d.status_generation

abbrev pub is_current_for : Token → Option DeviceState → Bool
is_current_for t none = false
is_current_for t (some d) =
    not d.is_generation_exhausted && (generation_of t.fact_channel d == t.generation)

-- IsCurrent.
unfoldable pub is_current : Token → Devices → Bool
is_current t ds = is_current_for t (ds t.device_id)
