-- ===== src/Prelude/Fallible.antt =====
-- Steps that can throw: `none` is a thrown exception, which nothing in the model catches.
use mathlib.Core.Path.{◌≡◌, refl, subst}
use mathlib.Core.Bool.{Bool, true, false}
use mathlib.Core.Option.{Option, none, some}
use audio_playback_connector.Prelude.Tests.{if◌then◌else◌}

infixl 5 ◌>>=◌ ◌>>◌
unfoldable pub ◌>>=◌ {ℓ κ} : {A : Type ℓ} {B : Type κ} → Option A → (A → Option B) → Option B
none >>= f = none
some a >>= f = f a

unfoldable pub ◌>>◌ {ℓ} : {B : Type ℓ} → Option (Unit {0}) → Option B → Option B
unfolding ◌>>=◌
m >> k = m >>= λ _. k

abbrev pub require : Bool → Option (Unit {0})
require true = some tt
require false = none

-- `P` holds of the value, if the step gives one.
pub data Gives {ℓ κ} {A : Type ℓ} (P : A → Type κ) : Option A → Type (ℓ ⊔ κ) where
  gives : {a : A} → P a → Gives P (some a)
  throws : Gives P none

module _ {ℓ κ} {A : Type ℓ} {P : A → Type κ} where
  pub Gives-some : {o : Option A} {a : A} → Gives P o → o ≡ some a → P a
  Gives-some (gives h) e = subst P (cc) h
  Gives-some throws e = cc

  pub Gives-require : (b : Bool) {o : Option A} → (b ≡ true → Gives P o) → Gives P (require b >> o)
  unfolding ◌>>=◌ ◌>>◌
  Gives-require true k = k refl
  Gives-require false k = throws

  -- What the first step gives is known to the second.
  pub Gives-bind {μ ν} :
      {B : Type μ} {Q : B → Type ν} {o : Option B} {f : B → Option A}
      → Gives Q o
      → ((b : B) → Q b → Gives P (f b))
      → Gives P (o >>= f)
  unfolding ◌>>=◌
  Gives-bind (gives h) k = k _ h
  Gives-bind throws k = throws

  -- Nothing is needed of the first step.
  pub Gives-then {μ} :
      {B : Type μ} (o : Option B) {f : B → Option A} → ((b : B) → Gives P (f b)) → Gives P (o >>= f)
  unfolding ◌>>=◌
  Gives-then none k = throws
  Gives-then (some b) k = k b

  pub Gives-if : (b : Bool) {x y : Option A} → Gives P x → Gives P y → Gives P (if b then x else y)
  Gives-if true hx hy = hx
  Gives-if false hx hy = hy
