-- ===== src/Settings/Store/Progress.antt =====
-- What the invariant gives: nothing is lost, and what each operation answers.
use audio_playback_connector.Prelude.{
  ℕ, zero, suc, ◌+◌, ◌^◌, ◌≤◌, ◌<◌, ◌≡◌, ap, ◌≢◌, ◌⊎◌, true, false, Option, none, some, arith,
  u64_max,
}
use Prim.Native.Nat.{min}
use native.Mathlib.Nat.{one-le-pow, two-pow-succ}
use audio_playback_connector.Settings.Data.{SettingsData}
use audio_playback_connector.Settings.Request.{Request, admits, edit}
use audio_playback_connector.Settings.Changed.{edit-Exact}
use audio_playback_connector.Settings.Store.{
  Store, retry_delay, debounce_delay, CommitOutcome, MutationStatus, waits_for_load, returns,
  rejected, applied, result, mutate, commit, complete_write, writes, reports, worker_round,
  flush_wake, flush_attempt,
}
use audio_playback_connector.Settings.Store.World.{World, started, Reach}
use audio_playback_connector.Settings.Store.Invariant.{Reach-Inv}

power_bounds : (e : ℕ) → (1 ≤ 2 ^ e) × (2 ^ e ≤ 2 ^ suc e)
power_bounds e = (one-le-pow e 2 (omega arith), omega (arith, two-pow-succ e))

-- The retry delay is between one second and five minutes, and never falls as failures add up.
pub retry_delay_bounds :
    (n : ℕ)
    → (1000 ≤ retry_delay n) × (retry_delay n ≤ 300000) × (retry_delay n ≤ retry_delay (suc n))
unfolding retry_delay
retry_delay_bounds zero = omega arith
retry_delay_bounds (suc n) = ground (
  arith,
  power_bounds (min n 10),
  power_bounds (min (suc n) 10),
  ap (λ (e : ℕ). 2 ^ e) {x = min (suc n) 10} {y = suc (min n 10)},
  ap (λ (e : ℕ). 2 ^ e) {x = min (suc n) 10} {y = min n 10},
)

-- From a reachable, dirty, open store with no write and no load under way, the worker's round at or
-- after the due time begins a write of the current settings; if that succeeds and nothing changes
-- meanwhile, the store is clean and the writer free.
pub worker_persists :
    {disk : Option SettingsData} {w : World} (now later : ℕ)
    → Reach (started disk) w
    → w.store.closing ≡ false
    → w.store.load_active ≡ false
    → w.store.writer_active ≡ false
    → w.store.persisted_revision < w.store.revision
    → w.store.due ≤ now
    → let (s, action) = worker_round now w.store in
      let t = complete_write w.store.revision true later s in
      (action ≡ writes)
      × (s.settings ≡ w.store.settings)
      × (t.persisted_revision ≡ t.revision)
      × (t.writer_active ≡ false)
unfolding worker_round complete_write
worker_persists {w} now later r open_ idle free dirty due = ground (arith, Reach-Inv r)

-- In every state that a process reaches after a corrupt file could not be set aside, the worker does
-- not begin a write, a flush reports failure, and every mutation is rejected and changes nothing.
pub corrupt_never_overwritten :
    {disk : Option SettingsData} {w : World} (now : ℕ) (r : Request)
    → Reach (started disk) w
    → w.store.preservation_failed ≡ true
    → ((worker_round now w.store).1 ≢ writes)
      × ((flush_attempt w.store).1 ≡ reports false)
      × (mutate now r w.store ≡ returns w.store (result rejected w.store.revision))
unfolding worker_round flush_attempt flush_wake mutate commit
corrupt_never_overwritten {w} now r reach failed = (
  λ e. ground (arith, Reach-Inv reach),
  ground (arith, Reach-Inv reach),
  ground (arith, Reach-Inv reach),
)

-- The store after an applied mutation.
pub record Applied (now : ℕ) (r : Request) (s t : Store) : Type 0 where
  pub admitted : admits r ≡ true
  pub open_store :
      (s.closing ≡ false) × (s.shutdown_requested ≡ false) × (s.preservation_failed ≡ false)
  pub next_revision : t.revision ≡ s.revision + 1
  pub new_settings : t.settings ≡ (edit r s.settings).0
  pub different : t.settings ≢ s.settings
  pub scheduled : (t.timer_armed ≡ true) × (t.due ≡ now + debounce_delay)
  pub not_yet_saved : t.persisted_revision ≡ s.persisted_revision

-- What a call comes to.
abbrev pub Answers : ℕ → Request → Store → CommitOutcome → Type 0
Answers now r s waits_for_load = (s.load_active ≡ true) × (s.closing ≡ false) × (admits r ≡ true)
Answers now r s (returns t res) =
    ((res.status ≢ applied) × (res.revision ≡ s.revision) × (t ≡ s))
    ⊎ ((res ≡ result applied (s.revision + 1)) × Applied now r s t)

-- In every case a mutation either waits, while the file is loaded into an open store; or answers
-- "rejected" or "unchanged" and leaves the whole store as it was; or is applied: its arguments passed,
-- the store is open, the settings are those that it asks for and differ from the old ones, under the
-- next revision, and the write is scheduled.
pub mutate-Answers : (now : ℕ) (r : Request) (s : Store) → Answers now r s (mutate now r s)
unfolding mutate commit
mutate-Answers now r s = ground (arith, edit-Exact r s.settings)

abbrev pub status_of : CommitOutcome → Option MutationStatus
status_of waits_for_load = none
status_of (returns t res) = some res.status

-- In an open store with no load under way and a revision to spare, an admitted mutation that would
-- make the settings different is applied.
pub mutate_applies :
    (now : ℕ) (r : Request) (s : Store)
    → admits r ≡ true
    → s.closing ≡ false
    → s.shutdown_requested ≡ false
    → s.load_active ≡ false
    → s.preservation_failed ≡ false
    → s.revision < u64_max
    → (edit r s.settings).0 ≢ s.settings
    → status_of (mutate now r s) ≡ some applied
unfolding mutate commit
mutate_applies now r s a c f l p room d = ground (arith, edit-Exact r s.settings)
