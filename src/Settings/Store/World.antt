-- ===== src/Settings/Store/World.antt =====
-- The store with its surroundings: the write that a thread has begun, the settings file, and the
-- last revision handed to subscribers. The file is what reading and decoding it would give; encoding,
-- atomic replacement and decoding are the storage boundary's and `SettingsCodec`'s, and a write is
-- taken to store the settings that it captured or to leave the file as it was.
use audio_playback_connector.Prelude.{ℕ, ◌≡◌, Bool, true, Option, none, some, if◌then◌else◌}
use audio_playback_connector.Settings.Data.{SettingsData}
use audio_playback_connector.Settings.Persistable.{is_persistable}
use audio_playback_connector.Settings.Request.{Request}
use audio_playback_connector.Settings.Store.{
  Store, Publication, fresh_store, returns, MutationResult, mutate, complete_write, writes,
  worker_round, FlushAction, writes_now, blocks, reports, flush_wake, flush_attempt, load_begin,
  load_without_commit, load_commit, subscribe, unsubscribe, shutdown_begin, shutdown_fence, drain,
}

pub record World : Type 0 where
  pub store : Store
  pub in_flight : Option (ℕ × SettingsData)
  pub disk : Option SettingsData
  pub published : ℕ

-- A process starts with a fresh store and whatever file there is.
abbrev pub started : Option SettingsData → World
started disk = record { store = fresh_store; in_flight = none; disk = disk; published = 0 }

-- The write captures the current revision and settings.
abbrev pub captured : World → Option (ℕ × SettingsData)
captured w = some (w.store.revision, w.store.settings)

abbrev pub after_flush : World → Store × FlushAction → World
after_flush w (s, writes_now) = record w { store = s; in_flight = captured w }
after_flush w (s, blocks) = record w { store = s }
after_flush w (s, reports b) = record w { store = s }

-- One critical section of some thread, or an answer of the storage.
pub data Step (w v : World) : Type 0 where
  mutated :
      (now : ℕ) (r : Request) {s : Store} {result : MutationResult}
      → mutate now r w.store ≡ returns s result
      → v ≡ record w { store = s }
      → Step w v
  worker_began :
      (now : ℕ)
      → (worker_round now w.store).1 ≡ writes
      → v ≡ record w { store = (worker_round now w.store).0; in_flight = captured w }
      → Step w v
  flush_began : v ≡ after_flush w (flush_attempt w.store) → Step w v
  flush_woke : v ≡ after_flush w (flush_wake w.store) → Step w v
  wrote :
      (now r : ℕ) (d : SettingsData) (succeeded : Bool)
      → w.in_flight ≡ some (r, d)
      → v ≡ record w {
        store = complete_write r succeeded now w.store;
        in_flight = none;
        disk = if succeeded then some d else w.disk;
      }
      → Step w v
  load_began : v ≡ record w { store = (load_begin w.store).0 } → Step w v
  load_failed :
      (preserved : Bool)
      → w.store.load_active ≡ true
      → v ≡ record w {
        store = load_without_commit preserved w.store;
        disk = if preserved then none else w.disk;
      }
      → Step w v
  loaded :
      (now : ℕ) (d : SettingsData) (needs_rewrite : Bool)
      → w.store.load_active ≡ true
      → w.disk ≡ some d
      → is_persistable d ≡ true
      → v ≡ record w { store = load_commit now d needs_rewrite w.store }
      → Step w v
  subscribed : v ≡ record w { store = (subscribe w.store).0 } → Step w v
  unsubscribed : (id : ℕ) → v ≡ record w { store = unsubscribe id w.store } → Step w v
  shutdown_began :
      (discard : Bool) (attempts : ℕ)
      → v ≡ record w { store = shutdown_begin discard attempts w.store }
      → Step w v
  fenced : w.store.closing ≡ true → v ≡ record w { store = shutdown_fence w.store } → Step w v
  drained :
      (p : Publication) {s : Store}
      → drain w.store ≡ some (p, s)
      → v ≡ record w { store = s; published = p.revision }
      → Step w v

pub data Reach (w : World) : World → Type 0 where
  here : Reach w w
  next : {v u : World} → Reach w v → Step v u → Reach w u
