-- ===== src/Control/Pipe/Wire.antt =====
-- The bytes of the pipe: the fields of a message as the program's memory holds them, the lowest byte
-- first, and the reading of fields.
use audio_playback_connector.Prelude.{
  ℕ, zero, suc, ◌+◌, ◌*◌, ◌/◌, ◌%◌, ◌<◌, ◌≡◌, refl, ap, Bool, List, [], ◌∷◌, arith, if◌then◌else◌,
  All, length,
}
use audio_playback_connector.Text.Utf16.{WString}

abbrev pub Bytes : Type 0
Bytes = List ℕ

pub data IoStatus : Type 0 where
  success cancelled timeout closed invalid_data failed : IoStatus

-- A message and what follows it on the pipe, or why there is none.
pub data Received (A : Type 0) : Type 0 where
  received : A → Bytes → Received A
  refused : IoStatus → Received A

abbrev pub Reader : Type 0 → Type 0
Reader A = Bytes → Received A

infixl 5 ◌>>=◌ ◌>>◌
unfoldable pub ◌>>=◌ : {A B : Type 0} → Reader A → (A → Reader B) → Reader B
◌>>=◌ m f pipe = elim (m pipe) [ received a rest ↦ f a rest | refused status ↦ refused status ]

unfoldable pub ◌>>◌ : {B : Type 0} → Reader (Unit {0}) → Reader B → Reader B
unfolding ◌>>=◌
m >> k = m >>= λ _. k

unfoldable pub accept : {A : Type 0} → A → Reader A
accept a pipe = received a pipe

-- `return IoStatus::InvalidData` unless a test holds.
unfoldable pub require : Bool → Reader (Unit {0})
require b pipe = if b then received tt pipe else refused invalid_data

-- A field of `k` bytes, and the bytes that are written after it.
unfoldable pub field : ℕ → ℕ → Bytes → Bytes
field zero n after = after
field (suc k) n after = n % 256 ∷ field k (n / 256) after

-- The values of `k` bytes.
unfoldable pub range : ℕ → ℕ
range zero = 1
range (suc k) = 256 * range k

-- A field that is read; the peer has closed the pipe where it ends too early.
unfoldable pub read_field : ℕ → Reader ℕ
read_field zero pipe = received 0 pipe
read_field (suc k) [] = refused closed
read_field (suc k) (b ∷ pipe) = elim (read_field k pipe) [
  | received n rest ↦ received (b + 256 * n) rest
  | refused status ↦ refused status
]

-- The units of a string, likewise.
unfoldable pub units : WString → Bytes → Bytes
units [] after = after
units (c ∷ w) after = field 2 c (units w after)

unfoldable pub read_units : ℕ → Reader WString
read_units zero pipe = received [] pipe
read_units (suc n) pipe = elim (read_field 2 pipe) [
  | received c rest ↦ elim (read_units n rest) [
    | received w after ↦ received (c ∷ w) after
    | refused status ↦ refused status
  ]
  | refused status ↦ refused status
]

-- A unit of 16 bits.
abbrev pub IsUnit : ℕ → Type 0
IsUnit c = c < 65536

pub read_field-field :
    (k n : ℕ) (after : Bytes) → n < range k → read_field k (field k n after) ≡ received n after
unfolding read_field field range
read_field-field zero n after h = ap (λ n. received n after) (omega (arith, h))
read_field-field (suc k) n after h =
    rw (read_field-field k (n / 256) after (omega (arith, h)))
      (ap (λ n. received n after) (omega arith))

pub read_units-units :
    (w : WString) (after : Bytes)
    → All IsUnit w
    → read_units (length w) (units w after) ≡ received w after
unfolding read_units units range
read_units-units [] after h = refl
read_units-units (c ∷ w) after h =
    rw (read_field-field 2 c (units w after) h.0, read_units, read_units-units w after h.1) refl
