-- ===== src/Settings/Examples.antt =====
-- Tests of the settings, and the theorems at concrete inputs.
use audio_playback_connector.Prelude.{
  ◌≤◌, ◌<◌, ◌≡◌, refl, ◌≢◌, ◌↔◌, inl, true, false, none, some, [], ◌∷◌, arith, length, take,
}
use audio_playback_connector.Text.{wide}
use audio_playback_connector.Text.Utf16.{
  WString, WString-discrete, is_valid_utf16, contains_unit, is_bounded_utf16, unit_at, cut_at,
  truncate_utf16,
}
use audio_playback_connector.Text.Utf16.WellFormed.{WellFormed, is_valid_utf16_iff}
use audio_playback_connector.Text.Utf16.Truncate.{truncate_utf16-bounded, truncate_utf16_longest}
use audio_playback_connector.Settings.Data.{SettingsData, default_settings}
use audio_playback_connector.Settings.Persistable.{is_persistable, default_settings_ok}
use audio_playback_connector.Settings.Lists.{erase_id}
use audio_playback_connector.Settings.Request.{connected, startup, admits, edit}
use audio_playback_connector.Settings.Edit.{
  record_connected_device, connected_ids, set_start_with_windows,
}
use audio_playback_connector.Settings.KeepsPersistable.{edit-IsPersistable}
use audio_playback_connector.Settings.Changed.{Exact, edit-Exact}
use audio_playback_connector.Settings.Store.{
  waits_for_load, Store, Publication, fresh_store, CommitOutcome, returns, result, rejected, mutate,
  commit, complete_write, writes, reports, worker_round, flush_attempt, load_begin,
  load_without_commit, subscribe, drain,
}
use audio_playback_connector.Settings.Store.World.{
  World, started, mutated, worker_began, wrote, load_began, load_failed, subscribed, Reach, here,
  next,
}
use audio_playback_connector.Settings.Store.Invariant.{Inv, Reach-Inv}
use audio_playback_connector.Settings.Store.Delivery.{drain_rises}
use audio_playback_connector.Settings.Store.Progress.{
  worker_persists, corrupt_never_overwritten, Answers, mutate-Answers,
}

abbrev smiley : WString
smiley = 0x41 ∷ 0xD83D ∷ 0xDE00 ∷ []

is_valid_utf16_iff_example : (is_valid_utf16 smiley ≡ true) ↔ WellFormed smiley
is_valid_utf16_iff_example = is_valid_utf16_iff smiley

-- A cut inside the pair drops the pair.
smiley_cut : truncate_utf16 smiley 2 ≡ 0x41 ∷ []
unfolding truncate_utf16 is_valid_utf16 contains_unit cut_at unit_at
smiley_cut = refl

truncate_utf16-bounded_example : is_bounded_utf16 (truncate_utf16 smiley 2) 2 ≡ true
truncate_utf16-bounded_example = truncate_utf16-bounded smiley 2

truncate_utf16_longest_example :
    (truncate_utf16 smiley 2 ≡ take (length (truncate_utf16 smiley 2)) smiley)
    × (1 ≤ length (truncate_utf16 smiley 2))
unfolding is_valid_utf16 contains_unit
truncate_utf16_longest_example =
    truncate_utf16_longest smiley 2 1 refl refl (omega arith) (omega arith)
      (WellFormed.unit (inl (omega arith)) WellFormed.empty)

abbrev headset : WString
headset = wide "BT#1"

abbrev speaker : WString
speaker = wide "BT#2"

-- Two devices have connected; the headset last.
abbrev known : SettingsData
known =
    (edit (connected headset (wide "Headset") (wide "2026-01-02"))
      (edit (connected speaker (wide "Speaker") []) default_settings).0).0

known_history : known.last_connected_ids ≡ headset ∷ speaker ∷ []
unfolding edit record_connected_device connected_ids erase_id WString-discrete
known_history = refl

connect_admitted : admits (connected headset (wide "Headset") []) ≡ true
unfolding admits is_bounded_utf16 is_valid_utf16 contains_unit
connect_admitted = refl

edit-IsPersistable_example :
    is_persistable (edit (connected headset (wide "Headset") []) default_settings).0 ≡ true
edit-IsPersistable_example =
    edit-IsPersistable (connected headset (wide "Headset") []) default_settings connect_admitted
      default_settings_ok

edit-Exact_example :
    Exact default_settings (edit (connected headset (wide "Headset") []) default_settings)
edit-Exact_example =
    edit-Exact (connected headset (wide "Headset") []) default_settings connect_admitted

-- A mutation is applied at time 5 to a fresh store with one subscriber.
abbrev listening : Store
listening = (subscribe fresh_store).0

abbrev store_of : CommitOutcome → Store → Store
store_of (returns t res) s = t
store_of waits_for_load s = s

abbrev dirty : Store
dirty = store_of (mutate 5 (startup true) listening) listening

dirty_world : World
dirty_world = record (started none) { store = dirty }

Reach-dirty : Reach (started none) dirty_world
unfolding mutate commit admits edit set_start_with_windows subscribe dirty_world
Reach-dirty = next (next here (subscribed refl)) (mutated 5 (startup true) refl refl)

mutate-Answers_example : Answers 5 (startup true) listening (mutate 5 (startup true) listening)
mutate-Answers_example = mutate-Answers 5 (startup true) listening

Reach-Inv_example : Inv dirty_world
Reach-Inv_example = Reach-Inv Reach-dirty

worker_persists_example :
    let (s, action) = worker_round 305 dirty_world.store in
    let t = complete_write dirty_world.store.revision true 310 s in
    (action ≡ writes)
    × (s.settings ≡ dirty_world.store.settings)
    × (t.persisted_revision ≡ t.revision)
    × (t.writer_active ≡ false)
unfolding mutate commit admits edit set_start_with_windows subscribe dirty_world
worker_persists_example =
    worker_persists 305 310 Reach-dirty refl refl refl (omega arith) (omega arith)

-- The worker has written the change.
written : World
written = record (started none) {
  store = complete_write 1 true 310 (worker_round 305 dirty).0;
  disk = some dirty.settings;
}

Reach-written : Reach (started none) written
unfolding mutate commit admits edit set_start_with_windows subscribe dirty_world written
    worker_round complete_write
Reach-written =
    next (next Reach-dirty (worker_began 305 refl refl)) (wrote 310 1 dirty.settings true refl refl)

abbrev the_publication : Publication
the_publication = record {
  settings = dirty.settings;
  revision = 1;
  dirty = true;
  subscribers = 1 ∷ [];
}

drain_rises_example : (dirty_world.published < 1) × (1 ≤ dirty_world.store.revision)
unfolding mutate commit admits edit set_start_with_windows subscribe dirty_world drain
drain_rises_example = drain_rises {p = the_publication} Reach-dirty refl

-- A corrupt file that could not be moved away.
stuck : World
stuck = record (started none) { store = load_without_commit false (load_begin fresh_store).0 }

Reach-stuck : Reach (started none) stuck
unfolding stuck load_begin load_without_commit
Reach-stuck = next (next here (load_began refl)) (load_failed false refl refl)

corrupt_never_overwritten_example :
    ((worker_round 9 stuck.store).1 ≢ writes)
    × ((flush_attempt stuck.store).1 ≡ reports false)
    × (mutate 9 (startup true) stuck.store
        ≡ returns stuck.store (result rejected stuck.store.revision))
unfolding stuck load_begin load_without_commit
corrupt_never_overwritten_example = corrupt_never_overwritten 9 (startup true) Reach-stuck refl
