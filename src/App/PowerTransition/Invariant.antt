-- ===== src/App/PowerTransition/Invariant.antt =====
-- The invariant of the coordinator, and the ticks of its schedule
-- (AudioPlaybackConnector2/src/app/PowerTransitionCoordinator.cpp).
use audio_playback_connector.Prelude.{
  subst, true_of_flip, ℕ, ◌≡◌, ◌∙◌, ◌⊎◌, inl, inr, refl, sym, Bool, true, false, not, ◌||◌, Option,
  arith, All, Bool-cases, if◌then◌else◌, is_some, ◌==◌,
}
use audio_playback_connector.Text.{is_empty}
use audio_playback_connector.App.PowerTransition.{
  Timer, no_timer, ticking, unavailable, Coordinator, Delivery, deliver, tick,
}
use audio_playback_connector.App.PowerTransition.World.{latest}
use audio_playback_connector.App.PowerTransition.Targets.{
  Few, Fewer, All-Few, drop_exhausted-Fewer, is_empty-eligible,
}

-- The schedule runs for a generation, unless the platform refused it.
abbrev pub Runs : Timer → ℕ → Type 0
Runs no_timer n = ⊥
Runs (ticking g) n = g ≡ n
Runs unavailable n = Unit

pub record Inv (s : Coordinator) (suspending : Option ℕ) : Type 0 where
  pub few : All Few s.targets
  pub fewer : s.delivery_in_flight ≡ true → All Fewer s.targets
  pub runs :
      is_some s.reconnect ≡ true
      → s.cancelled ≡ false
      → is_empty s.targets ≡ false
      → Runs s.timer s.generation
  pub held : is_some suspending ≡ true → (s.cancelled ≡ true) × (is_some s.reconnect ≡ false)

pub if-Inv :
    {o : Option ℕ} {x y : Coordinator} (b : Bool)
    → (b ≡ true → Inv x o)
    → (b ≡ false → Inv y o)
    → Inv (if b then x else y) o
if-Inv true f g = f refl
if-Inv false f g = g refl

-- What a delivery does.
record Delivers (generation : ℕ) (s : Coordinator) (d : Delivery) : Type 0 where
  same_timer : d.state.timer ≡ s.timer
  same_generation : d.state.generation ≡ s.generation
  same_cancelled : d.state.cancelled ≡ s.cancelled
  same_reconnect : d.state.reconnect ≡ s.reconnect
  few : All Few s.targets → All Few d.state.targets
  fewer :
      (s.delivery_in_flight ≡ true → All Fewer s.targets)
      → d.state.delivery_in_flight ≡ true
      → All Fewer d.state.targets
  shrinks : is_empty d.state.targets ≡ false → is_empty s.targets ≡ false
  stops :
      d.goes_on ≡ false
      → (s.cancelled ≡ true)
        ⊎ ((s.generation == generation) ≡ false)
        ⊎ (is_empty d.state.targets ≡ true)

if-Delivers :
    {g : ℕ} {s : Coordinator} {x y : Delivery} (b : Bool)
    → (b ≡ true → Delivers g s x)
    → (b ≡ false → Delivers g s y)
    → Delivers g s (if b then x else y)
if-Delivers true f g = f refl
if-Delivers false f g = g refl

deliver-Delivers : (g : ℕ) (s : Coordinator) → Delivers g s (deliver g s)
unfolding deliver
deliver-Delivers g s =
    if-Delivers (s.cancelled || not (s.generation == g) || is_empty s.targets)
      (λ e. record {
        same_timer = refl;
        same_generation = refl;
        same_cancelled = refl;
        same_reconnect = refl;
        few = λ h. h;
        fewer = λ h. h;
        shrinks = λ h. h;
        stops = λ h. elim (Bool-cases s.cancelled) [
          | inl c ↦ inl c
          | inr c ↦ elim (Bool-cases (s.generation == g)) [
            | inl f ↦ inr (inr (ground arith))
            | inr f ↦ inr (inl f)
          ]
        ];
      })
      (λ e.
        if-Delivers s.delivery_in_flight
          (λ f. record {
            same_timer = refl;
            same_generation = refl;
            same_cancelled = refl;
            same_reconnect = refl;
            few = λ h. h;
            fewer = λ h. h;
            shrinks = λ h. h;
            stops = λ h. absurd (ground arith);
          })
          (λ f. record {
            same_timer = refl;
            same_generation = refl;
            same_cancelled = refl;
            same_reconnect = refl;
            few = λ h. All-Few _ (drop_exhausted-Fewer s.targets);
            fewer = λ h k. drop_exhausted-Fewer s.targets;
            shrinks = λ h. ground arith;
            stops = λ h. inr (inr (sym (is_empty-eligible s.targets) ∙ true_of_flip _ h));
          }))

pub if-delivers :
    {o : Option ℕ} (x y : Delivery) (b : Bool)
    → (b ≡ true → Inv x.state o)
    → (b ≡ false → Inv y.state o)
    → Inv (if b then x else y).state o
if-delivers x y true f g = f refl
if-delivers x y false f g = g refl

pub if-begins :
    (o : Option ℕ) (x y : Coordinator × Option ℕ) (b : Bool)
    → (b ≡ true → Inv x.0 (latest x.1 o))
    → (b ≡ false → Inv y.0 (latest y.1 o))
    → Inv (if b then x else y).0 (latest (if b then x else y).1 o)
if-begins o x y true f g = f refl
if-begins o x y false f g = g refl

pub if-begins_resume :
    {o : Option ℕ} (x y : Coordinator × Bool) (b : Bool)
    → (b ≡ true → Inv x.0 o)
    → (b ≡ false → Inv y.0 o)
    → Inv (if b then x else y).0 o
if-begins_resume x y true f g = f refl
if-begins_resume x y false f g = g refl

differs_from : (m n : ℕ) → n ≡ m → (m == n) ≡ false → ⊥
differs_from m n e h = ground arith

Timer-cases : (t : Timer) → (t ≡ no_timer) ⊎ (t ≡ unavailable) ⊎ ((g : ℕ) × (t ≡ ticking g))
Timer-cases no_timer = inl refl
Timer-cases unavailable = inr (inl refl)
Timer-cases (ticking g) = inr (inr (g, refl))

-- A tick whose schedule goes on, and one whose schedule stops.
pub going : (g : ℕ) (s : Coordinator) (o : Option ℕ) → Inv s o → Inv (deliver g s).state o
going g s o h =
    let d = deliver-Delivers g s in
    record {
      few = d.few h.few;
      fewer = d.fewer h.fewer;
      runs = λ r c t.
          rw (d.same_timer, d.same_generation)
            (h.runs (rw (sym d.same_reconnect) r) (sym d.same_cancelled ∙ c) (d.shrinks t));
      held = λ k. rw (d.same_cancelled, d.same_reconnect) (h.held k);
    }

stopping :
    (g : ℕ) (s : Coordinator) (o : Option ℕ)
    → Inv s o
    → s.timer ≡ ticking g
    → (deliver g s).goes_on ≡ false
    → Inv (record (deliver g s).state { timer = no_timer }) o
stopping g s o h e f =
    let d = deliver-Delivers g s in
    let k = going g s o h in
    record {
      few = k.few;
      fewer = k.fewer;
      runs = λ r c t. elim (d.stops f) [
        | inl x ↦ absurd (cc (d.same_cancelled))
        | inr y ↦ elim y [
          | inl x ↦ absurd (
              differs_from s.generation g
                (subst (λ u. Runs u s.generation) e
                  (h.runs (rw (sym d.same_reconnect) r) (sym d.same_cancelled ∙ c) (d.shrinks t)))
                x)
          | inr x ↦ absurd (cc)
        ]
      ];
      held = k.held;
    }

pub tick-Inv : (o : Option ℕ) (s : Coordinator) → Inv s o → Inv (tick s).state o
unfolding tick
tick-Inv o s h = elim (Timer-cases s.timer) [
  | inl e ↦ rw (tick, e) h
  | inr x ↦ elim x [
    | inl e ↦ rw (tick, e) h
    | inr (g, e) ↦
        rw (tick, e) (if-Inv (deliver g s).goes_on (λ f. going g s o h) (λ f. stopping g s o h e f))
  ]
]
