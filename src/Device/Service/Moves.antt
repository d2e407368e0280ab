-- ===== src/Device/Service/Moves.antt =====
-- How the tasks of `DeviceService` (AudioPlaybackConnector2/src/core/DeviceService.cpp) may change its
-- state.
use audio_playback_connector.Prelude.{
  ℕ, ◌≤◌, ◌≡◌, refl, ◌∙◌, Bool, true, false, not, Option, none, some, List, [], ◌∷◌, ◌++◌,
  if◌then◌else◌, is_some, All, arith,
}
use audio_playback_connector.Text.Table.{Table, Every, lookup}
use audio_playback_connector.Device.Session.Data.{Session, Platform}
use audio_playback_connector.Device.Session.World.{Reach, here, next}
use audio_playback_connector.Text.Utf16.{WString}
use audio_playback_connector.Device.Session.Safety.{Inv}
use audio_playback_connector.Device.Service.Data.{Service, Completion}

-- A completion is pending exactly while it has no status.
abbrev pub Consistent : Completion → Type 0
Consistent c = c.pending ≡ not (is_some c.status)

abbrev pub IsOver : Completion → Type 0
IsOver c = c.pending ≡ false

-- The invariant: every session satisfies its own, and after Shutdown there is no session and no
-- pending completion.
pub record IsSound (sessions : Table Session) (completions : List Completion) (is_shutdown : Bool)
    : Type 0 where
  pub each : Every Inv sessions
  pub consistent : All Consistent completions
  pub closed : is_shutdown ≡ true → (sessions ≡ []) × All IsOver completions

abbrev pub Sound : Service → Type 0
Sound s = IsSound s.sessions s.completions s.is_shutdown

-- A later state of a completion: a status stays.
pub record Later (c d : Completion) : Type 0 where
  pub same_device : d.device_id ≡ c.device_id
  pub same_epoch : d.epoch ≡ c.epoch
  pub kept : is_some c.status ≡ true → d.status ≡ c.status

abbrev pub Grows : List Completion → List Completion → Type 0
Grows [] ds = Unit
Grows (c ∷ cs) [] = ⊥
Grows (c ∷ cs) (d ∷ ds) = Later c d × Grows cs ds

abbrev pub Rises : Option ℕ → Option ℕ → Type 0
Rises none b = Unit
Rises (some m) none = ⊥
Rises (some m) (some n) = m ≤ n

-- What becomes of the session of a device: it ends with the service, or it is still the one of the device, and
-- changed only as a session does.
pub data Lives (v : WString → Platform) (id : WString) (old : Session) (t : Service) : Type 0 where
  ended : t.is_shutdown ≡ true → Lives v id old t
  lived :
      {new : Session} → lookup id t.sessions ≡ some new → Reach (v id) old new → Lives v id old t

-- What a task does: it keeps the invariant, drops no completion and no status, does not go back to an
-- older revision of the settings, and replaces no session.
pub record Moves (v : WString → Platform) (s t : Service) : Type 0 where
  pub sound : Sound s → Sound t
  pub grows : Grows s.completions t.completions
  pub rises : Rises s.settings_policy_revision t.settings_policy_revision
  pub lives : (id : WString) (old : Session) → lookup id s.sessions ≡ some old → Lives v id old t
  pub down : s.is_shutdown ≡ true → t.is_shutdown ≡ true

Reach-trans : {p : Platform} {r s t : Session} → Reach p r s → Reach p s t → Reach p r t
Reach-trans f here = f
Reach-trans f (next g step) = next (Reach-trans f g) step

Lives-trans :
    {v : WString → Platform} {id : WString} {old : Session} {t u : Service}
    → Moves v t u
    → Lives v id old t
    → Lives v id old u
Lives-trans m (ended h) = ended (m.down h)
Lives-trans {v} {id} {old} {t} {u} m (lived {new} a r) = later (m.lives id new a)
  where
    later : Lives v id new u → Lives v id old u
    later (ended h) = ended h
    later (lived b r') = lived b (Reach-trans r r')

pub Grows-refl : (cs : List Completion) → Grows cs cs
Grows-refl [] = tt
Grows-refl (c ∷ cs) =
    (record { same_device = refl; same_epoch = refl; kept = λ h. refl }, Grows-refl cs)

Later-trans : {a b c : Completion} → Later a b → Later b c → Later a c
Later-trans f g = record {
  same_device = g.same_device ∙ f.same_device;
  same_epoch = g.same_epoch ∙ f.same_epoch;
  kept = λ h. g.kept (rw (f.kept h) h) ∙ f.kept h;
}

Grows-trans : (xs bs cs : List Completion) → Grows xs bs → Grows bs cs → Grows xs cs
Grows-trans [] bs cs f g = tt
Grows-trans (a ∷ xs) [] cs f g = absurd f
Grows-trans (a ∷ xs) (b ∷ bs) [] f g = absurd g
Grows-trans (a ∷ xs) (b ∷ bs) (c ∷ cs) f g = (Later-trans f.0 g.0, Grows-trans xs bs cs f.1 g.1)

pub Grows-append : (cs ds : List Completion) → Grows cs (cs ++ ds)
Grows-append [] ds = tt
Grows-append (c ∷ cs) ds =
    (record { same_device = refl; same_epoch = refl; kept = λ h. refl }, Grows-append cs ds)

pub Rises-refl : (r : Option ℕ) → Rises r r
Rises-refl none = tt
Rises-refl (some n) = omega arith

Rises-trans : (a b c : Option ℕ) → Rises a b → Rises b c → Rises a c
Rises-trans none b c f g = tt
Rises-trans (some l) none c f g = absurd f
Rises-trans (some l) (some m) none f g = absurd g
Rises-trans (some l) (some m) (some n) f g = omega (arith, f, g)

pub Moves-refl : {v : WString → Platform} (s : Service) → Moves v s s
Moves-refl s = record {
  sound = λ h. h;
  grows = Grows-refl _;
  rises = Rises-refl _;
  lives = λ id old e. lived e here;
  down = λ h. h;
}

pub Moves-trans :
    {v : WString → Platform} {s t u : Service} → Moves v s t → Moves v t u → Moves v s u
Moves-trans {v} {s} {t} {u} f g = record {
  sound = λ h. g.sound (f.sound h);
  grows = Grows-trans s.completions t.completions u.completions f.grows g.grows;
  rises =
      Rises-trans s.settings_policy_revision t.settings_policy_revision u.settings_policy_revision
        f.rises g.rises;
  lives = λ id old e. Lives-trans g (f.lives id old e);
  down = λ h. g.down (f.down h);
}

pub if-Moves :
    {v : WString → Platform} {s t u : Service} (b : Bool)
    → (b ≡ true → Moves v s t)
    → (b ≡ false → Moves v s u)
    → Moves v s (if b then t else u)
if-Moves true f g = f refl
if-Moves false f g = g refl

-- The same for a task that has an answer.
pub record Replies {R : Type 0} (v : WString → Platform) (s : Service) (a : Service × R)
    : Type 0 where
  pub moved : Moves v s a.0

pub then-Replies :
    {R : Type 0} {v : WString → Platform} {s t : Service} {a : Service × R}
    → Moves v s t
    → Replies v t a
    → Replies v s a
then-Replies m r = record { moved = Moves-trans m r.moved }

pub if-Replies :
    {R : Type 0} {v : WString → Platform} {s : Service} {x y : Service × R} (b : Bool)
    → (b ≡ true → Replies v s x)
    → (b ≡ false → Replies v s y)
    → Replies v s (if b then x else y)
if-Replies true f g = f refl
if-Replies false f g = g refl
