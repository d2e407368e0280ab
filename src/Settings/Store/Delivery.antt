-- ===== src/Settings/Store/Delivery.antt =====
-- The order in which subscribers hear of commits.
use audio_playback_connector.Prelude.{
  ℕ, ◌+◌, ◌≤◌, ◌<◌, ◌≡◌, refl, inl, inr, Bool, false, not, Option, some, List, [], ◌∷◌, ◌++◌, arith,
  ◌==◌, Bool-cases,
}
use audio_playback_connector.Text.{is_empty}
use audio_playback_connector.Settings.Request.{edit, Request}
use audio_playback_connector.Settings.Store.{
  Store, Publication, returns, MutationResult, mutate, commit, complete_write, worker_round,
  flush_wake, flush_attempt, load_begin, load_without_commit, load_commit, subscribe, unsubscribe,
  shutdown_begin, shutdown_fence, drain, queue,
}
use audio_playback_connector.Settings.Store.World.{
  World, started, after_flush, Step, mutated, worker_began, flush_began, flush_woke, wrote,
  load_began, load_failed, loaded, subscribed, unsubscribed, shutdown_began, fenced, drained, Reach,
  here, next,
}
use audio_playback_connector.Settings.Data.{SettingsData}

-- Revisions rise strictly along the queue, from above `low` up to `high`.
abbrev pub Ascending : ℕ → List Publication → ℕ → Type 0
Ascending low [] high = low ≤ high
Ascending low (p ∷ ps) high = (low < p.revision) × Ascending p.revision ps high

Ascending-append :
    (low : ℕ) (ps : List Publication) (high : ℕ) (p : Publication)
    → high < p.revision
    → Ascending low ps high
    → Ascending low (ps ++ p ∷ []) p.revision
Ascending-append low [] high p h a = (omega arith, omega arith)
Ascending-append low (q ∷ ps) high p h a = (a.0, Ascending-append q.revision ps high p h a.1)

Ascending-mono :
    (low : ℕ) (ps : List Publication) (high higher : ℕ)
    → high ≤ higher
    → Ascending low ps high
    → Ascending low ps higher
Ascending-mono low [] high higher h a = omega arith
Ascending-mono low (q ∷ ps) high higher h a = (a.0, Ascending-mono q.revision ps high higher h a.1)

Ascending-queue :
    (low : ℕ) (s : Store) (d : SettingsData) (r : ℕ) (dirty : Bool)
    → s.revision < r
    → Ascending low s.pending s.revision
    → Ascending low (queue s d r dirty) r
Ascending-queue low s d r dirty h a = elim (Bool-cases (is_empty s.subscriptions)) [
  | inl none_there ↦ rw none_there (Ascending-mono low s.pending s.revision r (omega arith) a)
  | inr some_there ↦ rw some_there (Ascending-append low s.pending s.revision _ h a)
]

abbrev pub InOrder : World → Type 0
InOrder w = Ascending w.published w.store.pending w.store.revision

mutated-InOrder :
    (w : World) (now : ℕ) (r : Request) {s : Store} {res : MutationResult}
    → mutate now r w.store ≡ returns s res
    → InOrder w
    → InOrder (record w { store = s })
unfolding mutate commit
mutated-InOrder w now r e h = ground (
  arith,
  Ascending-queue w.published w.store (edit r w.store.settings).0 (w.store.revision + 1)
      (not (w.store.revision + 1 == w.store.persisted_revision)),
)

load_commit-InOrder :
    (w : World) (now : ℕ) (d : SettingsData) (b : Bool)
    → InOrder w
    → InOrder (record w { store = load_commit now d b w.store })
unfolding load_commit
load_commit-InOrder w now d b h = ground (
  arith,
  Ascending-queue w.published w.store d 1 false,
  Ascending-mono w.published w.store.pending w.store.revision 1,
)

after_flush-InOrder :
    (w : World)
    → InOrder w
    → InOrder (after_flush w (flush_wake w.store)) × InOrder (after_flush w (flush_attempt w.store))
unfolding flush_attempt flush_wake
after_flush-InOrder w h = (ground arith, ground arith)

-- The sections that touch neither the queue nor the revision.
abbrev Untouched : Store → Store → Type 0
Untouched s t = (t.pending ≡ s.pending) × (t.revision ≡ s.revision)

Untouched-InOrder :
    (w : World) (s : Store)
    → Untouched w.store s
    → InOrder w
    → Ascending w.published s.pending s.revision
Untouched-InOrder w s u h = ground arith

worker_round-Untouched : (now : ℕ) (s : Store) → Untouched s (worker_round now s).0
unfolding worker_round
worker_round-Untouched now s = ground arith

complete_write-Untouched :
    (now r : ℕ) (b : Bool) (s : Store) → Untouched s (complete_write r b now s)
unfolding complete_write
complete_write-Untouched now r b s = ground arith

load-Untouched :
    (b : Bool) (s : Store) → Untouched s (load_begin s).0 × Untouched s (load_without_commit b s)
unfolding load_begin load_without_commit
load-Untouched b s = (ground arith, (refl, refl))

quiet-Untouched :
    (id attempts : ℕ) (discard : Bool) (s : Store)
    → Untouched s (subscribe s).0
      × Untouched s (unsubscribe id s)
      × Untouched s (shutdown_begin discard attempts s)
      × Untouched s (shutdown_fence s)
unfolding subscribe unsubscribe shutdown_begin shutdown_fence
quiet-Untouched id attempts discard s = (ground arith, ground arith, ground arith, ground arith)

Ascending-le : (low : ℕ) (ps : List Publication) (high : ℕ) → Ascending low ps high → low ≤ high
Ascending-le low [] high a = a
Ascending-le low (p ∷ ps) high a = omega (arith, Ascending-le p.revision ps high a.1)

drain-InOrder :
    (w : World) (p : Publication) {s : Store}
    → drain w.store ≡ some (p, s)
    → InOrder w
    → (w.published < p.revision)
      × (p.revision ≤ s.revision)
      × (s.revision ≡ w.store.revision)
      × Ascending p.revision s.pending s.revision
unfolding drain
drain-InOrder w p {s} e h = ground (arith, Ascending-le p.revision s.pending w.store.revision)

Step-InOrder : {w v : World} → Step w v → InOrder w → InOrder v
Step-InOrder {w} (mutated now r e k) h = rw k (mutated-InOrder w now r e h)
Step-InOrder {w} (worker_began now e k) h =
    rw k (Untouched-InOrder w (worker_round now w.store).0 (worker_round-Untouched now w.store) h)
Step-InOrder {w} (flush_began k) h = rw k (after_flush-InOrder w h).1
Step-InOrder {w} (flush_woke k) h = rw k (after_flush-InOrder w h).0
Step-InOrder {w} (wrote now r d b e k) h = rw k (
    Untouched-InOrder w (complete_write r b now w.store) (complete_write-Untouched now r b w.store)
      h)
Step-InOrder {w} (load_began k) h =
    rw k (Untouched-InOrder w (load_begin w.store).0 (load-Untouched false w.store).0 h)
Step-InOrder {w} (load_failed b e k) h =
    rw k (Untouched-InOrder w (load_without_commit b w.store) (load-Untouched b w.store).1 h)
Step-InOrder {w} (loaded now d b a e p k) h = rw k (load_commit-InOrder w now d b h)
Step-InOrder {w} (subscribed k) h =
    rw k (Untouched-InOrder w (subscribe w.store).0 (quiet-Untouched 0 0 false w.store).0 h)
Step-InOrder {w} (unsubscribed id k) h =
    rw k (Untouched-InOrder w (unsubscribe id w.store) (quiet-Untouched id 0 false w.store).1 h)
Step-InOrder {w} (shutdown_began b n k) h =
    rw k (Untouched-InOrder w (shutdown_begin b n w.store) (quiet-Untouched 0 n b w.store).2 h)
Step-InOrder {w} (fenced c k) h =
    rw k (Untouched-InOrder w (shutdown_fence w.store) (quiet-Untouched 0 0 false w.store).3 h)
Step-InOrder {w} (drained p e k) h = rw k (drain-InOrder w p e h).3

Reach-InOrder : {disk : Option SettingsData} {w : World} → Reach (started disk) w → InOrder w
Reach-InOrder here = omega arith
Reach-InOrder (next r st) = Step-InOrder st (Reach-InOrder r)

-- Subscribers hear of revisions in strictly rising order: in every reachable state the publication
-- that the drainer takes next is newer than all that were taken before, and not newer than the store.
pub drain_rises :
    {disk : Option SettingsData} {w : World} {p : Publication} {s : Store}
    → Reach (started disk) w
    → drain w.store ≡ some (p, s)
    → (w.published < p.revision) × (p.revision ≤ w.store.revision)
drain_rises {w} {p} r e =
    let d = drain-InOrder w p e (Reach-InOrder r) in omega (arith, d.0, d.1, d.2)
