-- ===== src/Device/Service/Histories.antt =====
-- What holds in every history of a `DeviceService` (AudioPlaybackConnector2/src/core/DeviceService.cpp).
use audio_playback_connector.Prelude.{
  ℕ, zero, suc, ◌≡◌, ◌∙◌, ◌⊎◌, refl, subst, Bool, true, false, none, some, List, [], ◌∷◌, is_some,
  All, arith, Bool-cases, inl, inr, get_elem?, Gives-some,
}
use audio_playback_connector.Text.Table.{lookup, lookup-Every}
use audio_playback_connector.Text.Utf16.{WString}
use audio_playback_connector.Device.Session.Data.{Session, Platform}
use audio_playback_connector.Device.Session.Safety.{Inv}
use audio_playback_connector.Device.Service.Data.{
  Service, Completion, OperationStatus, fresh_service,
}
use audio_playback_connector.Device.Service.World.{History, here, next}
use audio_playback_connector.Device.Session.World.{Reach}
use audio_playback_connector.Device.Service.Moves.{
  Lives, lived, ended, Moves, Sound, Consistent, IsOver, Later, Grows, Rises, Moves-refl,
  Moves-trans,
}
use audio_playback_connector.Device.Service.Every.{Task-Moves}

pub History-Moves : {v : WString → Platform} {s t : Service} → History v s t → Moves v s t
History-Moves here = Moves-refl _
History-Moves (next h t) = Moves-trans (History-Moves h) (Task-Moves t)

pub History-Sound : {v : WString → Platform} {s : Service} → History v fresh_service s → Sound s
History-Sound h =
    (History-Moves h).sound (record { each = tt; consistent = tt; closed = λ e. (refl, tt) })

one_connection :
    {v : WString → Platform} {s : Service} (id : WString) (session : Session)
    → History v fresh_service s
    → lookup id s.sessions ≡ some session
    → ((session.is_close_in_flight ≡ false) ⊎ (session.connection ≡ none))
      × (session.overlap ≡ false)
one_connection {s} id session h e =
    let k : Inv session = Gives-some (lookup-Every Inv id s.sessions (History-Sound h).each) e in
    (
      elim (Bool-cases session.is_close_in_flight) [
        | inl f ↦ inr (k.good.base.solo f)
        | inr f ↦ inl f
      ],
      k.good.base.no_overlap,
    )

History-trans :
    {v : WString → Platform} {s t u : Service} → History v s t → History v t u → History v s u
History-trans f here = f
History-trans f (next g t) = next (History-trans f g) t

Lives-cases :
    {v : WString → Platform} {id : WString} {old : Session} {t : Service}
    → t.is_shutdown ≡ false
    → Lives v id old t
    → (new : Session) × (lookup id t.sessions ≡ some new) × Reach (v id) old new
Lives-cases up (ended h) = absurd (true_false h up)
  where
    true_false : {b : Bool} → b ≡ true → b ≡ false → ⊥
    true_false e f = cc
Lives-cases up (lived {new} e r) = (new, e, r)

-- A device has one session for as long as the service is not shut down. Whatever tasks and callbacks come, in
-- whatever order, and whatever the platform answers: a device that has a session at one time of a history
-- has one at every later time, which came out of the first by the steps of a session alone, so that no
-- task puts another in its place; and it holds no connection while one is being closed, and never created
-- one beside another.
pub one_session_per_device :
    {v : WString → Platform} {s t : Service} (id : WString) (session : Session)
    → History v fresh_service s
    → lookup id s.sessions ≡ some session
    → History v s t
    → t.is_shutdown ≡ false
    → (new : Session) × (lookup id t.sessions ≡ some new)
      × Reach (v id) session new
      × ((new.is_close_in_flight ≡ false) ⊎ (new.connection ≡ none))
      × (new.overlap ≡ false)
one_session_per_device {v} {s} {t} id session h e g up =
    let (new, f, r) = Lives-cases {v = v} up ((History-Moves g).lives id session e) in
    let (c, o) = one_connection id new (History-trans h g) f in (new, f, r, c, o)

some_injective : {a b : Completion} → some a ≡ some b → a ≡ b
some_injective e = cc

find-Later :
    (n : ℕ) (cs ds : List Completion) (c : Completion)
    → Grows cs ds
    → get_elem? cs n ≡ some c
    → (d : Completion) × (get_elem? ds n ≡ some d) × Later c d
find-Later n [] ds c g e = absurd (cc)
find-Later n (b ∷ cs) [] c g e = absurd g
find-Later zero (b ∷ cs) (d ∷ ds) c g e = (d, refl, subst (λ b. Later b d) (some_injective e) g.0)
find-Later (suc n) (b ∷ cs) (d ∷ ds) c g e = find-Later n cs ds c g.1 e

-- Once an operation has a result, the operation's result is the same at any later time: whatever the session does
-- afterwards, and whoever waits.
pub first_result_stays :
    {v : WString → Platform} {s t : Service} (n : ℕ) (c : Completion) (status : OperationStatus)
    → History v s t
    → get_elem? s.completions n ≡ some c
    → c.status ≡ some status
    → (d : Completion) × (get_elem? t.completions n ≡ some d)
      × (d.device_id ≡ c.device_id)
      × (d.epoch ≡ c.epoch)
      × (d.status ≡ some status)
first_result_stays {s} {t} n c status h e r =
    let (d, f, l) = find-Later n s.completions t.completions c (History-Moves h).grows e in
    (d, f, l.same_device, l.same_epoch, l.kept (rw (r) refl) ∙ r)

get-All :
    (P : Completion → Type 0) (n : ℕ) (cs : List Completion) (c : Completion)
    → All P cs
    → get_elem? cs n ≡ some c
    → P c
get-All P n [] c h e = absurd (cc)
get-All P zero (d ∷ cs) c h e = subst P (some_injective e) h.0
get-All P (suc n) (d ∷ cs) c h e = get-All P n cs c h.1 e

-- When the service is shut down, no session is left, and every operation ever started has a result: nobody who waits for one waits on.
pub shutdown_strands_none :
    {v : WString → Platform} {s : Service} (n : ℕ) (c : Completion)
    → History v fresh_service s
    → s.is_shutdown ≡ true
    → get_elem? s.completions n ≡ some c
    → (is_some c.status ≡ true) × (s.sessions ≡ [])
shutdown_strands_none {s} n c h down e =
    let k = History-Sound h in
    let over : IsOver c = get-All IsOver n s.completions c (k.closed down).1 e in
    let same : Consistent c = get-All Consistent n s.completions c k.consistent e in
    (ground arith, (k.closed down).0)

-- The settings' policy that a service follows is never replaced by one of an older revision.
pub policy_never_goes_back :
    {v : WString → Platform} {s t : Service}
    → History v s t
    → Rises s.settings_policy_revision t.settings_policy_revision
policy_never_goes_back h = (History-Moves h).rises
