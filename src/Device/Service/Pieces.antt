-- ===== src/Device/Service/Pieces.antt =====
-- The pieces that the tasks of `DeviceService` (AudioPlaybackConnector2/src/core/DeviceService.cpp) are
-- made of: publishing, and the calls of sessions.
use audio_playback_connector.Prelude.{
  ◌≡◌, refl, subst, ◌==◌, sym, ◌∙◌, Bool, true, some, List, [], ◌∷◌, ◌++◌, map, All, arith,
  Bool-cases, Option-cases, inl, inr, Gives-some,
}
use audio_playback_connector.Text.{same, same_iff}
use audio_playback_connector.Text.Table.{
  Table, lookup, put, Every, put-Every, lookup-Every, lookup-put, lookup-put-other,
}
use audio_playback_connector.Device.Session.World.{Step, here, next}
use audio_playback_connector.Device.Session.Histories.{Step-Inv}
use audio_playback_connector.Text.Utf16.{WString}
use audio_playback_connector.Device.Session.Data.{
  Platform, Session, Fact, OperationKind, ConnectionResult, DisconnectReason,
}
use audio_playback_connector.Device.Session.Safety.{Inv}
use audio_playback_connector.Device.Service.Data.{
  shutdown_fact, Service, Completion, Shown, FactKind, CommandKind, ResultKind,
}
use audio_playback_connector.Device.Service.Publish.{
  show_all, resolve_operation, resolve, settle, update_published_snapshot, publish_shown, publish,
  on_session_fact, deliver, change_session, act, for_each,
}
use audio_playback_connector.Device.Service.Commands.{result_of}
use audio_playback_connector.Device.Service.Moves.{
  Lives, lived, Consistent, IsOver, IsSound, Sound, Later, Grows, Moves, Grows-refl, Grows-append,
  Rises-refl, Moves-refl, Moves-trans, if-Moves, if-Replies, Replies,
}

settle-Later : (b : Bool) (shown : Table Shown) (c : Completion) → Later c (settle b shown c)
unfolding settle resolve
settle-Later b shown c = record {
  same_device = ground arith;
  same_epoch = ground arith;
  kept = λ h. ground arith;
}

settle-Consistent :
    (b : Bool) (shown : Table Shown) (c : Completion) → Consistent c → Consistent (settle b shown c)
unfolding settle resolve
settle-Consistent b shown c h = ground arith

settle-IsOver :
    (b : Bool) (shown : Table Shown) (c : Completion) → b ≡ true → IsOver (settle b shown c)
unfolding settle resolve resolve_operation
settle-IsOver b shown c h = ground arith

map-settle-Grows :
    (b : Bool) (shown : Table Shown) (cs : List Completion) → Grows cs (map (settle b shown) cs)
map-settle-Grows b shown [] = tt
map-settle-Grows b shown (c ∷ cs) = (settle-Later b shown c, map-settle-Grows b shown cs)

map-settle-Consistent :
    (b : Bool) (shown : Table Shown) (cs : List Completion)
    → All Consistent cs
    → All Consistent (map (settle b shown) cs)
map-settle-Consistent b shown [] h = tt
map-settle-Consistent b shown (c ∷ cs) h =
    (settle-Consistent b shown c h.0, map-settle-Consistent b shown cs h.1)

map-settle-IsOver :
    (b : Bool) (shown : Table Shown) (cs : List Completion)
    → b ≡ true
    → All IsOver (map (settle b shown) cs)
map-settle-IsOver b shown [] h = tt
map-settle-IsOver b shown (c ∷ cs) h = (settle-IsOver b shown c h, map-settle-IsOver b shown cs h)

append-All :
    (P : Completion → Type 0) (cs : List Completion) (c : Completion)
    → All P cs
    → P c
    → All P (cs ++ c ∷ [])
append-All P [] c h k = (k, tt)
append-All P (d ∷ cs) c h k = (h.0, append-All P cs c h.1 k)

publish_shown-Moves :
    {v : WString → Platform} (shown : Table Shown) (kind : FactKind) (id : WString)
    (r : ConnectionResult) (b : Bool) (o : OperationKind) (d : DisconnectReason) (s : Service)
    → Moves v s (publish_shown shown kind id r b o d s)
unfolding publish_shown update_published_snapshot
publish_shown-Moves {v} shown kind id r b o d s =
    let told : (s : Service)
        → Moves v s (record s { completions = map (settle s.is_shutdown shown) s.completions }) =
      λ s. record {
        sound = λ h. record {
          each = h.each;
          consistent = map-settle-Consistent s.is_shutdown shown s.completions h.consistent;
          closed = λ e. ((h.closed e).0, map-settle-IsOver s.is_shutdown shown s.completions e);
        };
        grows = map-settle-Grows s.is_shutdown shown s.completions;
        rises = Rises-refl _;
        lives = λ id old e. lived e here;
        down = λ h. h;
      } in
    if-Moves _
      (λ h. record {
        sound = λ k. (told s).sound k;
        grows = (told s).grows;
        rises = Rises-refl _;
        lives = λ id old e. lived e here;
        down = λ h. h;
      })
      (λ h. record {
        sound = λ k. (told s).sound k;
        grows = (told s).grows;
        rises = Rises-refl _;
        lives = λ id old e. lived e here;
        down = λ h. h;
      })

-- The fact of Shutdown resolves every completion.
pub closing-Sound :
    (s : Service)
    → s.sessions ≡ []
    → s.is_shutdown ≡ true
    → All Consistent s.completions
    → Sound (publish shutdown_fact [] s)
unfolding publish publish_shown update_published_snapshot
closing-Sound s n down h =
    let told : IsSound s.sessions (map (settle s.is_shutdown (show_all s.sessions)) s.completions)
        s.is_shutdown =
      record {
        each = subst (Every Inv) (sym n) tt;
        consistent = map-settle-Consistent s.is_shutdown _ s.completions h;
        closed = λ e. (n, map-settle-IsOver s.is_shutdown _ s.completions down);
      } in
    elim (Bool-cases (s.active_subscription == 0)) [ inl e ↦ rw (e) told | inr e ↦ rw (e) told ]

pub publish-Moves :
    {v : WString → Platform} (kind : FactKind) (id : WString) (s : Service)
    → Moves v s (publish kind id s)
unfolding publish
publish-Moves kind id s = publish_shown-Moves _ _ _ _ _ _ _ s

on_session_fact-Moves :
    {v : WString → Platform} (id : WString) (f : Fact) (s : Service)
    → Moves v s (on_session_fact id f s)
unfolding on_session_fact
on_session_fact-Moves id f s =
    if-Moves s.is_shutdown (λ h. Moves-refl s) (λ h. publish_shown-Moves _ _ _ _ _ _ _ s)

deliver-Moves :
    {v : WString → Platform} (id : WString) (fs : List Fact) (s : Service)
    → Moves v s (deliver id fs s)
unfolding deliver
deliver-Moves id [] s = Moves-refl s
deliver-Moves id (f ∷ fs) s = Moves-trans (deliver-Moves id fs s) (on_session_fact-Moves id f _)

lookup-not_empty :
    (id : WString) (t : Table Session) {old : Session} → lookup id t ≡ some old → t ≡ [] → ⊥
unfolding lookup
lookup-not_empty id [] e n = cc
lookup-not_empty id (x ∷ t) e n = cc

some_injective : {a b : Session} → some a ≡ some b → a ≡ b
some_injective e = cc

put-Lives :
    {v : WString → Platform} (id : WString) (old new : Session) (s : Service)
    → lookup id s.sessions ≡ some old
    → Step (v id) old new
    → (j : WString) (t : Session) → lookup j s.sessions ≡ some t
    → Lives v j t (record s { sessions = put id new s.sessions })
put-Lives {v} id old new s e step j t f = elim (Bool-cases (same j id)) [
  | inl k ↦
      let q : j ≡ id = (same_iff j id).0 k in
      let r : old ≡ t = some_injective (sym e ∙ subst (λ i. lookup i s.sessions ≡ some t) q f) in
      subst (λ i. Lives v i t (record s { sessions = put id new s.sessions })) (sym q)
        (lived (lookup-put id new s.sessions) (next here (subst (λ u. Step (v id) u new) r step)))
  | inr k ↦ lived (lookup-put-other j id new s.sessions k ∙ f) here
]

-- A session of the table takes a step.
pub change_session-Moves :
    {v : WString → Platform} (id : WString) (old new : Session) (s : Service)
    → lookup id s.sessions ≡ some old
    → Step (v id) old new
    → Moves v s (change_session id old new s)
unfolding change_session
change_session-Moves id old new s e step =
    Moves-trans
      (record {
        sound = λ h. record {
          each =
              put-Every Inv id new s.sessions
                (Step-Inv step (Gives-some (lookup-Every Inv id s.sessions h.each) e)) h.each;
          consistent = h.consistent;
          closed = λ c. absurd (lookup-not_empty id s.sessions e (h.closed c).0);
        };
        grows = Grows-refl _;
        rises = Rises-refl _;
        lives = put-Lives id old new s e step;
        down = λ h. h;
      })
      (deliver-Moves id _ _)

-- An operation of the session.
pub act-Moves :
    {v : WString → Platform} (id : WString) (f : Session → Session) (s : Service)
    → ((t : Session) → Step (v id) t (f t))
    → Moves v s (act id f s)
unfolding act
act-Moves id f s k = elim (Option-cases (lookup id s.sessions)) [
  | inl e ↦ rw (e, act) (Moves-refl s)
  | inr (old, e) ↦ rw (e, act) (change_session-Moves id old (f old) s e (k old))
]

pub for_each-Moves :
    {v : WString → Platform} (ids : List WString) (body : WString → Service → Service) (s : Service)
    → ((id : WString) (t : Service) → Moves v t (body id t))
    → Moves v s (for_each ids body s)
unfolding for_each
for_each-Moves [] body s k = Moves-refl s
for_each-Moves (id ∷ ids) body s k = Moves-trans (k id s) (for_each-Moves ids body (body id s) k)

pub result_of-Replies :
    {v : WString → Platform} (command : CommandKind) (kind : ResultKind) (id : WString)
    (s : Service)
    → Replies v s (result_of command kind id s)
unfolding result_of
result_of-Replies command kind id s =
    if-Replies _
      (λ h. record {
        moved = record {
          sound = λ k. record {
            each = k.each;
            consistent =
                append-All Consistent s.completions _ k.consistent
                  (settle-Consistent s.is_shutdown _ _ refl);
            closed = λ e. (
              (k.closed e).0,
              append-All IsOver s.completions _ (k.closed e).1 (settle-IsOver s.is_shutdown _ _ e),
            );
          };
          grows = Grows-append s.completions _;
          rises = Rises-refl _;
          lives = λ id old e. lived e here;
          down = λ h. h;
        };
      })
      (λ h. record { moved = Moves-refl s })
