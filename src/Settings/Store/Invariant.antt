-- ===== src/Settings/Store/Invariant.antt =====
-- What holds of the store between any two critical sections.
use audio_playback_connector.Prelude.{
  if◌then◌else◌, Bool, ℕ, ◌≤◌, ◌<◌, ◌≡◌, ◌⊎◌, true, false, Option, none, some, arith, u64_max,
}
use audio_playback_connector.Settings.Data.{SettingsData}
use audio_playback_connector.Settings.Persistable.{default_settings_ok, is_persistable}
use audio_playback_connector.Settings.Request.{Request}
use audio_playback_connector.Settings.KeepsPersistable.{edit-IsPersistable}
use audio_playback_connector.Settings.Store.{
  Publication, drain, shutdown_fence, shutdown_begin, writes, unsubscribe, subscribe, flush_wake,
  flush_attempt, load_without_commit, complete_write, load_begin, load_commit, worker_round, Store,
  returns, MutationResult, mutate, commit,
}
use audio_playback_connector.Settings.Store.World.{
  drained, fenced, here, next, shutdown_began, unsubscribed, subscribed, loaded, load_failed,
  load_began, wrote, flush_woke, flush_began, worker_began, mutated, Reach, started, Step, captured,
  after_flush, World,
}

-- The write that is under way: newer than the file, and of the current settings if of the current
-- revision.
abbrev pub FlightOk : World → Option (ℕ × SettingsData) → Type 0
FlightOk w none = w.store.writer_active ≡ false
FlightOk w (some (r, d)) =
    (w.store.writer_active ≡ true)
    × (w.store.persisted_revision < r)
    × (r ≤ w.store.revision)
    × (r ≡ w.store.revision → d ≡ w.store.settings)

pub record Inv (w : World) : Type 0 where
  pub ordered : w.store.persisted_revision ≤ w.store.revision
  pub in_range : w.store.revision ≤ u64_max
  pub flight : FlightOk w w.in_flight
  pub loading :
      w.store.load_active ≡ true
      → (w.store.revision ≡ 0) × (w.in_flight ≡ none) × (w.store.preservation_failed ≡ false)
  pub saved :
      0 < w.store.revision
      → w.store.persisted_revision ≡ w.store.revision
      → w.disk ≡ some w.store.settings
  pub alive :
      w.store.closing ≡ false
      → w.store.persisted_revision < w.store.revision
      → (w.store.timer_armed ≡ true) ⊎ (w.store.writer_active ≡ true)
  pub fenced_closing : w.store.shutdown_requested ≡ true → w.store.closing ≡ true
  pub discarding : w.store.discard_requested ≡ true → w.store.closing ≡ true
  pub claimed : w.store.load_active ≡ true → w.store.load_claimed ≡ true
  pub unclaimed : w.store.load_claimed ≡ false → w.store.preservation_failed ≡ false
  pub corrupt : w.store.preservation_failed ≡ true → w.store.revision ≡ 0
  pub valid : is_persistable w.store.settings ≡ true

mutated-Inv :
    (w : World) (now : ℕ) (r : Request) {s : Store} {result : MutationResult}
    → mutate now r w.store ≡ returns s result
    → Inv w
    → Inv (record w { store = s })
unfolding mutate commit
mutated-Inv w now r e h = ground (arith, edit-IsPersistable r w.store.settings)

worker-Inv :
    (w : World) (now : ℕ)
    → (worker_round now w.store).1 ≡ writes
    → Inv w
    → Inv (record w { store = (worker_round now w.store).0; in_flight = captured w })
unfolding worker_round
worker-Inv w now e h = ground arith

flush_wake-Inv : (w : World) → Inv w → Inv (after_flush w (flush_wake w.store))
unfolding flush_wake
flush_wake-Inv w h = ground arith

flush_attempt-Inv : (w : World) → Inv w → Inv (after_flush w (flush_attempt w.store))
unfolding flush_attempt flush_wake
flush_attempt-Inv w h = ground arith

wrote-Inv :
    (w : World) (now r : ℕ) (d : SettingsData) (succeeded : Bool)
    → w.in_flight ≡ some (r, d)
    → Inv w
    → Inv (record w {
      store = complete_write r succeeded now w.store;
      in_flight = none;
      disk = if succeeded then some d else w.disk;
    })
unfolding complete_write
wrote-Inv w now r d succeeded e h = ground arith

load_begin-Inv : (w : World) → Inv w → Inv (record w { store = (load_begin w.store).0 })
unfolding load_begin
load_begin-Inv w h = ground arith

load_failed-Inv :
    (w : World) (preserved : Bool)
    → w.store.load_active ≡ true
    → Inv w
    → Inv (record w {
      store = load_without_commit preserved w.store;
      disk = if preserved then none else w.disk;
    })
unfolding load_without_commit
load_failed-Inv w preserved e h = ground arith

load_commit-Inv :
    (w : World) (now : ℕ) (d : SettingsData) (b : Bool)
    → w.store.load_active ≡ true
    → w.disk ≡ some d
    → is_persistable d ≡ true
    → Inv w
    → Inv (record w { store = load_commit now d b w.store })
unfolding load_commit
load_commit-Inv w now d b e k p h = ground arith

quiet-Inv :
    (w : World) (id attempts : ℕ) (discard : Bool)
    → Inv w
    → Inv (record w { store = (subscribe w.store).0 })
      × Inv (record w { store = unsubscribe id w.store })
      × Inv (record w { store = shutdown_begin discard attempts w.store })
      × (w.store.closing ≡ true → Inv (record w { store = shutdown_fence w.store }))
unfolding subscribe unsubscribe shutdown_begin shutdown_fence
quiet-Inv w id attempts discard h = (ground arith, ground arith, ground arith, λ c. ground arith)

drained-Inv :
    (w : World) (p : Publication) {s : Store}
    → drain w.store ≡ some (p, s)
    → Inv w
    → Inv (record w { store = s; published = p.revision })
unfolding drain
drained-Inv w p e h = ground arith

-- Every critical section, and every answer of the storage, keeps the invariant.
pub Step-Inv : {w v : World} → Step w v → Inv w → Inv v
Step-Inv {w} (mutated now r e k) h = rw k (mutated-Inv w now r e h)
Step-Inv {w} (worker_began now e k) h = rw k (worker-Inv w now e h)
Step-Inv {w} (flush_began k) h = rw k (flush_attempt-Inv w h)
Step-Inv {w} (flush_woke k) h = rw k (flush_wake-Inv w h)
Step-Inv {w} (wrote now r d b e k) h = rw k (wrote-Inv w now r d b e h)
Step-Inv {w} (load_began k) h = rw k (load_begin-Inv w h)
Step-Inv {w} (load_failed b e k) h = rw k (load_failed-Inv w b e h)
Step-Inv {w} (loaded now d b a e p k) h = rw k (load_commit-Inv w now d b a e p h)
Step-Inv {w} (subscribed k) h = rw k (quiet-Inv w 0 0 false h).0
Step-Inv {w} (unsubscribed id k) h = rw k (quiet-Inv w id 0 false h).1
Step-Inv {w} (shutdown_began b n k) h = rw k (quiet-Inv w 0 n b h).2
Step-Inv {w} (fenced c k) h = rw k ((quiet-Inv w 0 0 false h).3 c)
Step-Inv {w} (drained p e k) h = rw k (drained-Inv w p e h)

started-Inv : (disk : Option SettingsData) → Inv (started disk)
started-Inv disk = ground (arith, default_settings_ok)

-- In every state that a process reaches, whatever its threads do and in whatever order, the invariant
-- holds: the persisted revision is at most the current one; a write under way is marked, newer than the
-- persisted revision, and of the current settings if of the current revision; a clean store above
-- revision 0 is in the file, and a dirty open one is scheduled; a load runs only at revision 0 with no
-- write under way; and the settings may be written.
pub Reach-Inv : {disk : Option SettingsData} {w : World} → Reach (started disk) w → Inv w
Reach-Inv {disk} here = started-Inv disk
Reach-Inv (next r st) = Step-Inv st (Reach-Inv r)
