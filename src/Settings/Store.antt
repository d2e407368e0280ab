-- ===== src/Settings/Store.antt =====
-- The state of `SettingsStore::Impl` and the critical sections of its operations
-- (AudioPlaybackConnector2/src/core/SettingsStore.cpp). Every function is one stretch of code that runs
-- under the store's mutex; a wait on a condition variable ends the function, and waking up is another.
pub mod World
pub mod Invariant
pub mod Delivery
pub mod Progress
use audio_playback_connector.Prelude.{
  ℕ, suc, ◌+◌, ◌-◌, ◌*◌, ◌^◌, Bool, true, false, not, ◌&&◌, ◌||◌, Option, none, some, List, [], ◌∷◌,
  u64_max, ◌++◌, ltb, ◌==◌, if◌then◌else◌,
}
use Prim.Native.Nat.{min, max}
use audio_playback_connector.Text.{is_empty}
use audio_playback_connector.Settings.Data.{SettingsData, default_settings}
use audio_playback_connector.Settings.Edit.{Edit}
use audio_playback_connector.Settings.Request.{Request, admits, edit}

abbrev pub debounce_delay : ℕ
debounce_delay = 300

abbrev pub max_retry_delay : ℕ
max_retry_delay = 300000

-- RetryDelay, in milliseconds.
unfoldable pub retry_delay : ℕ → ℕ
retry_delay failures =
    let exponent = min (if failures == 0 then 0 else failures - 1) 10 in
    min (1000 * 2 ^ exponent) max_retry_delay

-- A queued notification: the snapshot and the subscriptions that were there when it was made.
pub record Publication : Type 0 where
  pub settings : SettingsData
  pub revision : ℕ
  pub dirty : Bool
  pub subscribers : List ℕ

pub record Store : Type 0 where
  pub settings : SettingsData
  pub revision : ℕ
  pub persisted_revision : ℕ
  pub next_subscription_id : ℕ
  pub subscriptions : List ℕ
  pub pending : List Publication
  pub timer_armed : Bool
  pub due : ℕ
  pub writer_active : Bool
  pub closing : Bool
  pub shutdown_requested : Bool
  pub shutdown_attempts : ℕ
  pub discard_requested : Bool
  pub load_claimed : Bool
  pub load_active : Bool
  pub preservation_failed : Bool
  pub failures : ℕ

abbrev pub fresh_store : Store
fresh_store = record {
  settings = default_settings;
  revision = 0;
  persisted_revision = 0;
  next_subscription_id = 0;
  subscriptions = [];
  pending = [];
  timer_armed = false;
  due = 0;
  writer_active = false;
  closing = false;
  shutdown_requested = false;
  shutdown_attempts = 3;
  discard_requested = false;
  load_claimed = false;
  load_active = false;
  preservation_failed = false;
  failures = 0;
}

pub data MutationStatus : Type 0 where
  rejected unchanged applied : MutationStatus

pub record MutationResult : Type 0 where
  pub status : MutationStatus
  pub revision : ℕ

-- What a call of `Commit` comes to: it blocks until the load is over, or it returns.
pub data CommitOutcome : Type 0 where
  waits_for_load : CommitOutcome
  returns : Store → MutationResult → CommitOutcome

abbrev pub result : MutationStatus → ℕ → MutationResult
result st r = record { status = st; revision = r }

-- The publication of a commit, queued only where somebody listens.
abbrev pub queue : Store → SettingsData → ℕ → Bool → List Publication
queue s d r dirty =
    if is_empty s.subscriptions
    then s.pending
    else s.pending
      ++ record { settings = d; revision = r; dirty = dirty; subscribers = s.subscriptions } ∷ []

-- The locked part of `Commit`, at the time `now`.
unfoldable pub commit : ℕ → Edit → Store → CommitOutcome
commit now mutation s =
    let (candidate, changed) = mutation s.settings in
    let next = s.revision + 1 in
    if s.load_active && not s.closing && not s.shutdown_requested
    then waits_for_load
    else if s.closing || s.shutdown_requested || s.preservation_failed
    then returns s (result rejected s.revision)
    else if s.revision == u64_max
    then returns s (result rejected s.revision)
    else if not changed
    then returns s (result unchanged s.revision)
    else returns
        (record s {
          settings = candidate;
          revision = next;
          pending = queue s candidate next (not (next == s.persisted_revision));
          timer_armed = true;
          due = now + debounce_delay;
        })
        (result applied next)

-- A public mutation: its arguments are checked first, with no wait.
unfoldable pub mutate : ℕ → Request → Store → CommitOutcome
mutate now r s = if admits r then commit now (edit r) s else returns s (result rejected s.revision)

-- CompleteWriteLocked.
unfoldable pub complete_write : ℕ → Bool → ℕ → Store → Store
complete_write captured succeeded now s =
    let t = record s { writer_active = false } in
    let persisted = max s.persisted_revision captured in
    let saved = record t { persisted_revision = persisted; failures = 0 } in
    let failed = min (s.failures + 1) 10 in
    if s.shutdown_requested
    then t
    else if succeeded
    then (if not (s.revision == persisted) && not s.closing
        then record saved { timer_armed = true; due = now + debounce_delay }
        else saved)
    else if not s.closing
    then record t { failures = failed; timer_armed = true; due = now + retry_delay failed }
    else t

-- What the worker does next.
pub data WorkerAction : Type 0 where
  exits : WorkerAction
  flushes_and_exits : WorkerAction
  discards_and_exits : WorkerAction
  writes : WorkerAction
  waits : Option ℕ → WorkerAction

-- One round of the worker's loop up to its unlock.
unfoldable pub worker_round : ℕ → Store → Store × WorkerAction
worker_round now s =
    if s.shutdown_requested
    then (s, exits)
    else if s.closing
    then (s, if s.discard_requested then discards_and_exits else flushes_and_exits)
    else if s.timer_armed
        && not s.load_active
        && not s.writer_active
        && not s.discard_requested
        && not (s.revision == s.persisted_revision)
    then (if ltb now s.due
        then (s, waits (some s.due))
        else (record s { writer_active = true; timer_armed = false }, writes))
    else (s, waits none)

-- An attempt of FlushSynchronously: it blocks, it returns, or it begins a write.
pub data FlushAction : Type 0 where
  blocks : FlushAction
  reports : Bool → FlushAction
  writes_now : FlushAction

-- The part of an attempt behind the wait, whose predicate is tested each time that the caller wakes.
unfoldable pub flush_wake : Store → Store × FlushAction
flush_wake s =
    if not (s.shutdown_requested || not s.writer_active && not s.load_active)
    then (s, blocks)
    else if s.shutdown_requested || s.preservation_failed
    then (s, reports false)
    else if s.discard_requested || s.revision == s.persisted_revision
    then (s, reports true)
    else (record s { writer_active = true }, writes_now)

unfoldable pub flush_attempt : Store → Store × FlushAction
flush_attempt s = flush_wake (record s { timer_armed = false })

-- The claim of `Load`, and whether it goes on to read the file.
unfoldable pub load_begin : Store → Store × Bool
load_begin s =
    let claimed = record s { load_claimed = true } in
    if s.load_claimed || s.closing || s.shutdown_requested
    then (s, false)
    else if not (s.revision == 0)
    then (claimed, false)
    else (record claimed { load_active = true }, true)

-- CompleteLoadWithoutCommit.
unfoldable pub load_without_commit : Bool → Store → Store
load_without_commit original_preserved s = record s {
  load_active = false;
  preservation_failed = not original_preserved;
}

-- The commit of what was read, at the time `now`.
unfoldable pub load_commit : ℕ → SettingsData → Bool → Store → Store
load_commit now loaded needs_rewrite s =
    let published = if s.closing then s.pending else queue s loaded 1 false in
    let t = record s {
      pending = published;
      settings = loaded;
      revision = 1;
      persisted_revision = if needs_rewrite then 0 else 1;
      load_active = false;
    } in
    if s.shutdown_requested || not (s.revision == 0)
    then record s { load_active = false }
    else if needs_rewrite
    then record t { timer_armed = true; due = now + debounce_delay }
    else t

unfoldable pub subscribe : Store → Store × Option ℕ
subscribe s =
    let id = suc s.next_subscription_id in
    if s.shutdown_requested || s.closing
    then (s, none)
    else (record s { next_subscription_id = id; subscriptions = id ∷ s.subscriptions }, some id)

unfoldable pub remove_subscription : ℕ → List ℕ → List ℕ
remove_subscription id [] = []
remove_subscription id (i ∷ is) =
    if i == id then remove_subscription id is else i ∷ remove_subscription id is

unfoldable pub unsubscribe : ℕ → Store → Store
unsubscribe id s = record s { subscriptions = remove_subscription id s.subscriptions }

-- The first section of `Shutdown`; a caller that finds the store closing waits for the first one.
unfoldable pub shutdown_begin : Bool → ℕ → Store → Store
shutdown_begin discard attempts s = if s.closing then s else record s {
  closing = true;
  timer_armed = false;
  shutdown_attempts = max attempts 1;
  discard_requested = discard;
  subscriptions = [];
}

-- Behind the wait for the worker: late completions are fenced off.
unfoldable pub shutdown_fence : Store → Store
shutdown_fence s = record s { shutdown_requested = true; timer_armed = false }

-- DrainPublications takes the oldest publication.
unfoldable pub drain : Store → Option (Publication × Store)
drain s = elim s.pending [ [] ↦ none | p ∷ ps ↦ some (p, record s { pending = ps }) ]
