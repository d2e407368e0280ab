-- ===== src/App/Fence/Tokens.antt =====
-- Tokens of the publication fence: current when issued, stale for good once a newer fact has come.
use audio_playback_connector.App.Fence.{
  Status, connected, Channel, connection_channel, status_channel, Token, DeviceState, Devices,
  same_status, update_connection, update_status, device_or_fresh, after_fact, observe,
  generation_of, is_current_for, is_current,
}
use audio_playback_connector.Text.{same, same_iff}
use audio_playback_connector.Text.Utf16.{WString}
use audio_playback_connector.Prelude.{
  ℕ, ◌≤◌, ◌≡◌, refl, ◌⊎◌, inl, inr, Bool, true, false, not, ◌&&◌, Option, none, some, List, [], ◌∷◌,
  arith, ◌==◌, differs, is_some, Bool-cases,
}

-- The generation that a device has reached on a channel.
abbrev pub reached : Channel → Option DeviceState → ℕ
reached c d = generation_of c (device_or_fresh d)

-- The token was issued for its device, now or before.
abbrev pub IsIssued : Token → Devices → Type 0
IsIssued t ds =
    (is_some (ds t.device_id) ≡ true) × (t.generation ≤ reached t.fact_channel (ds t.device_id))

-- Facts in the order in which they come, the last one first.
abbrev pub observe_all : List (WString × Status) → Devices → Devices
observe_all [] ds = ds
observe_all ((id, status) ∷ facts) ds = (observe id status (observe_all facts ds)).0

rises :
    (t : Token) (status : Status) (d : DeviceState)
    → (generation_of t.fact_channel d ≤ generation_of t.fact_channel (after_fact status d))
      × (d.is_generation_exhausted ≡ true → (after_fact status d).is_generation_exhausted ≡ true)
unfolding update_connection update_status
rises t status d = ground arith

-- A token that was issued and is not current is never current again, whatever facts come.
stale_step :
    (t : Token) (status : Status) (o : Option DeviceState)
    → is_some o ≡ true
    → t.generation ≤ reached t.fact_channel o
    → is_current_for t o ≡ false
    → (t.generation ≤ reached t.fact_channel (some (after_fact status (device_or_fresh o))))
      × (is_current_for t (some (after_fact status (device_or_fresh o))) ≡ false)
stale_step t status none s g e = ground arith
stale_step t status (some d) s g e = ground (arith, rises t status d)

-- The device's entry after a fact about some device.
observed :
    (id : WString) (status : Status) (ds : Devices) (k : WString)
    → ((observe id status ds).0 k ≡ some (after_fact status (device_or_fresh (ds k))))
      ⊎ ((observe id status ds).0 k ≡ ds k)
unfolding observe
observed id status ds k = elim (Bool-cases (same k id)) [
  | inl e ↦ inl (rw (e, (same_iff k id).0 e) refl)
  | inr e ↦ inr (rw (e) refl)
]

observed_here :
    (id : WString) (status : Status) (ds : Devices)
    → (observe id status ds).0 id ≡ some (after_fact status (device_or_fresh (ds id)))
unfolding observe
observed_here id status ds = rw ((same_iff id id).1 refl) refl

stale_after_one :
    (t : Token) (id : WString) (status : Status) (ds : Devices)
    → IsIssued t ds
    → is_current t ds ≡ false
    → IsIssued t (observe id status ds).0 × (is_current t (observe id status ds).0 ≡ false)
unfolding is_current
stale_after_one t id status ds i e = elim (observed id status ds t.device_id) [
  | inl q ↦ rw (q) (let s = stale_step t status (ds t.device_id) i.0 i.1 e in ((refl, s.0), s.1))
  | inr q ↦ rw (q) (i, e)
]

stale_after_all :
    (t : Token) (facts : List (WString × Status)) (ds : Devices)
    → IsIssued t ds
    → is_current t ds ≡ false
    → IsIssued t (observe_all facts ds) × (is_current t (observe_all facts ds) ≡ false)
stale_after_all t [] ds i e = (i, e)
stale_after_all t ((id, status) ∷ facts) ds i e =
    let h = stale_after_all t facts ds i e in
    stale_after_one t id status (observe_all facts ds) h.0 h.1

-- A token that was issued and is not current stays stale, whatever facts about whatever devices come.
pub superseded_stays_stale :
    (t : Token) (facts : List (WString × Status)) (ds : Devices)
    → IsIssued t ds
    → is_current t ds ≡ false
    → is_current t (observe_all facts ds) ≡ false
superseded_stays_stale t facts ds i e = (stale_after_all t facts ds i e).1

-- The fact differs from the last one on the channel.
abbrev pub is_news : Channel → Status → DeviceState → Bool
is_news connection_channel status d = differs d.is_connected (same_status status connected)
is_news status_channel status d = not (same_status d.current_status status)

news_lem :
    (t : Token) (status : Status) (d : DeviceState)
    → t.generation ≤ generation_of t.fact_channel d
    → is_news t.fact_channel status d ≡ true
    → is_current_for t (some (after_fact status d)) ≡ false
unfolding update_connection update_status
news_lem t status d g e = ground arith

-- A fact that differs from the last one on a token's channel makes every token issued before stale.
pub news_supersedes :
    (t : Token) (status : Status) (ds : Devices)
    → IsIssued t ds
    → is_news t.fact_channel status (device_or_fresh (ds t.device_id)) ≡ true
    → is_current t (observe t.device_id status ds).0 ≡ false
unfolding is_current
news_supersedes t status ds i e =
    rw (observed_here t.device_id status ds)
      (news_lem t status (device_or_fresh (ds t.device_id)) i.1 e)

self_current : (b : Bool) (n : ℕ) → (not b && (n == n)) ≡ not b
self_current b n = ground arith

-- The two tokens of an observation are current after it, unless the device's generations have run out.
pub observation_is_current :
    (id : WString) (status : Status) (ds : Devices)
    → let (es, o) = observe id status ds in
      let spent = (after_fact status (device_or_fresh (ds id))).is_generation_exhausted in
      (is_current o.connection es ≡ not spent) × (is_current o.state es ≡ not spent)
unfolding is_current observe
observation_is_current id status ds =
    rw ((same_iff id id).1 refl) (self_current _ _, self_current _ _)

unchanged_lem :
    (status : Status) (d : DeviceState)
    → same_status d.current_status status ≡ true
    → d.is_connected ≡ same_status status connected
    → after_fact status d ≡ d
unfolding update_connection update_status
unchanged_lem status d e f = ground arith

-- A fact equal to the last one of a known device leaves every token as it was, current or stale.
pub equal_fact_keeps_tokens :
    (t : Token) (id : WString) (status : Status) (ds : Devices) {d : DeviceState}
    → ds id ≡ some d
    → same_status d.current_status status ≡ true
    → d.is_connected ≡ same_status status connected
    → is_current t (observe id status ds).0 ≡ is_current t ds
unfolding is_current observe
equal_fact_keeps_tokens t id status ds {d} k e f = elim (Bool-cases (same t.device_id id)) [
  | inl q ↦ rw (q, (same_iff t.device_id id).0 q, k, unchanged_lem status d e f) refl
  | inr q ↦ rw (q) refl
]
