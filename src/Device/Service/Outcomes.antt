-- ===== src/Device/Service/Outcomes.antt =====
-- What the commands of `DeviceService` (AudioPlaybackConnector2/src/core/DeviceService.cpp) do where they
-- are refused, and what becomes of the operations that they start.
use audio_playback_connector.Prelude.{
  ◌≡◌, ◌↔◌, refl, Bool, true, false, ◌||◌, none, some, [], arith, Option-cases, inl, inr,
  if◌then◌else◌,
}
use audio_playback_connector.Text.Table.{Table, lookup}
use audio_playback_connector.Text.Utf16.{WString}
use audio_playback_connector.Device.Session.Data.{Platform, connected}
use audio_playback_connector.Device.Service.Data.{
  connect_command, Service, Completion, Shown, CommandKind, CommandResult, rejected, op_succeeded,
}
use audio_playback_connector.Device.Service.Publish.{resolve_operation}
use audio_playback_connector.Device.Service.Commands.{
  result_of, connect_device, reconnect_device, disconnect_device, disconnect_all_devices,
  reconnect_all_devices,
}

-- The answer is a refusal, and the state is as it was.
pub record IsRefused (s : Service) (a : Service × CommandResult) : Type 0 where
  pub unchanged : a.0 ≡ s
  pub answer : a.1.kind ≡ rejected
  pub no_operation : a.1.completion ≡ none

refused : (c : CommandKind) (id : WString) (s : Service) → IsRefused s (result_of c rejected id s)
unfolding result_of
refused connect_command id s = record { unchanged = refl; answer = refl; no_operation = refl }
refused _ id s = record { unchanged = refl; answer = refl; no_operation = refl }

if-IsRefused :
    {s : Service} (b : Bool) (x y : Service × CommandResult)
    → b ≡ true
    → IsRefused s x
    → IsRefused s (if b then x else y)
if-IsRefused true x y e h = h
if-IsRefused false x y e h = absurd (cc)

-- A service that is suspended or shut down refuses to connect, to reconnect and to disconnect, one device or
-- all, starts no operation, and changes nothing.
pub suspended_refuses :
    (v : WString → Platform) (id : WString) (s : Service)
    → (s.is_shutdown || s.is_suspended) ≡ true
    → IsRefused s (connect_device v id s)
      × IsRefused s (reconnect_device v id s)
      × IsRefused s (disconnect_device v id s)
      × IsRefused s (disconnect_all_devices v s)
      × IsRefused s (reconnect_all_devices v s)
unfolding connect_device reconnect_device disconnect_device disconnect_all_devices
    reconnect_all_devices
suspended_refuses v id s h = (
  if-IsRefused (s.is_shutdown || s.is_suspended) _ _ h (refused _ id s),
  if-IsRefused (s.is_shutdown || s.is_suspended) _ _ h (refused _ id s),
  if-IsRefused (s.is_shutdown || s.is_suspended) _ _ h (refused _ id s),
  if-IsRefused (s.is_shutdown || s.is_suspended) _ _ h (refused _ [] s),
  if-IsRefused (s.is_shutdown || s.is_suspended) _ _ h (refused _ [] s),
)

-- An operation is resolved as succeeded exactly where the service is not shut down and the session of
-- its device is connected and still in the operation's epoch.
pub resolve_operation_succeeded_iff :
    (is_shutdown : Bool) (shown : Table Shown) (c : Completion)
    → (resolve_operation is_shutdown shown c ≡ some op_succeeded) ↔ (
        (is_shutdown ≡ false)
        × ((s : Shown) × (lookup c.device_id shown ≡ some s)
            × (s.operation_epoch ≡ c.epoch)
            × (s.lifecycle ≡ connected)))
unfolding resolve_operation
resolve_operation_succeeded_iff b shown c = elim (Option-cases (lookup c.device_id shown)) [
  | inl e ↦ rw (e) (ground arith)
  | inr (s, e) ↦ rw (e) (
    λ h. (ground arith, (s, refl, ground arith, ground arith)),
    λ (down, (t, f, p, q)). let g : s ≡ t = cc in ground arith,
  )
]
