-- ===== src/Control/Pipe/Taken.antt =====
-- What the readers of fields and of units take off a pipe of bytes: the code of
-- AudioPlaybackConnector2/src/control/CommandPipeIo.cpp read backwards.
use audio_playback_connector.Prelude.{
  ℕ, zero, suc, ◌+◌, ◌*◌, ◌/◌, ◌%◌, ◌<◌, ◌≡◌, refl, ap, subst, ◌∙◌, [], ◌∷◌, All, arith, Bool, true,
  false, length,
}
use audio_playback_connector.Text.Utf16.{WString}
use audio_playback_connector.Control.Pipe.Wire.{
  Bytes, Reader, Received, received, refused, ◌>>=◌, ◌>>◌, require, field, range, read_field, units,
  read_units, IsUnit,
}

-- A byte.
abbrev pub IsByte : ℕ → Type 0
IsByte b = b < 256

-- A reader took a field of `k` bytes, the number `n`, off a pipe of bytes and left `rest`.
pub record TookField (k n : ℕ) (pipe rest : Bytes) : Type 0 where
  pub written : pipe ≡ field k n rest
  pub fits : n < range k
  pub bytes : All IsByte rest

pub received_parts :
    {A : Type 0} {a b : A} {p q : Bytes} → received a p ≡ received b q → (a ≡ b) × (p ≡ q)
received_parts e = (cc, cc)

-- One byte more.
TookField-longer :
    (k n b : ℕ) (pipe rest : Bytes)
    → IsByte b
    → (x : Received ℕ) → ((m : ℕ) (after : Bytes) → x ≡ received m after → TookField k m pipe after)
    → elim x [ received m after ↦ received (b + 256 * m) after | refused status ↦ refused status ]
      ≡ received n rest
    → TookField (suc k) n (b ∷ pipe) rest
unfolding field range
TookField-longer k n b pipe rest o (received m after) f e =
    let t = f m after refl in
    let (sum, same_rest) = received_parts e in
    let low : n % 256 ≡ b = omega (arith, sum, o) in
    let high : n / 256 ≡ m = omega (arith, sum, o) in
    record {
      written = rw (low, high, t.written, same_rest) refl;
      fits = omega (arith, sum, o, t.fits);
      bytes = subst (All IsByte) same_rest t.bytes;
    }
TookField-longer k n b pipe rest o (refused status) f e = cc

Took-read_field :
    (k n : ℕ) (pipe rest : Bytes)
    → All IsByte pipe
    → read_field k pipe ≡ received n rest
    → TookField k n pipe rest
unfolding read_field field range
Took-read_field zero n pipe rest o e =
    let (zero_read, same_rest) = received_parts e in
    record {
      written = same_rest;
      fits = omega (arith, zero_read);
      bytes = subst (All IsByte) same_rest o;
    }
Took-read_field (suc k) n [] rest o e = cc
Took-read_field (suc k) n (b ∷ pipe) rest o e =
    TookField-longer k n b pipe rest o.0 (read_field k pipe)
      (λ m after. Took-read_field k m pipe after o.1) e

-- What is written into a field are bytes.
pub field-IsByte : (k n : ℕ) (after : Bytes) → All IsByte after → All IsByte (field k n after)
unfolding field
field-IsByte zero n after o = o
field-IsByte (suc k) n after o = (omega arith, field-IsByte k (n / 256) after o)

pub units-IsByte : (w : WString) (after : Bytes) → All IsByte after → All IsByte (units w after)
unfolding units
units-IsByte [] after o = o
units-IsByte (c ∷ w) after o = field-IsByte 2 c (units w after) (units-IsByte w after o)

-- A reader took `n` units off a pipe of bytes, the string `w`, and left `rest`.
pub record TookUnits (n : ℕ) (w : WString) (pipe rest : Bytes) : Type 0 where
  pub written : pipe ≡ units w rest
  pub all_read : length w ≡ n
  pub fits : All IsUnit w
  pub bytes : All IsByte rest

TookUnits-longer :
    (n : ℕ) (c : ℕ) (w : WString) (pipe mid rest : Bytes)
    → TookField 2 c pipe mid
    → (x : Received WString)
    → ((v : WString) (after : Bytes) → x ≡ received v after → TookUnits n v mid after)
    → elim x [ received v after ↦ received (c ∷ v) after | refused status ↦ refused status ]
      ≡ received w rest
    → TookUnits (suc n) w pipe rest
unfolding units range
TookUnits-longer n c w pipe mid rest t (received v after) f e =
    let u = f v after refl in
    let (same_text, same_rest) = received_parts e in
    record {
      written =
          subst (λ z. pipe ≡ units z rest) same_text
            (subst (λ q. pipe ≡ units (c ∷ v) q) same_rest (t.written ∙ ap (field 2 c) u.written));
      all_read = subst (λ z. length z ≡ suc n) same_text (ap suc u.all_read);
      fits = subst (All IsUnit) same_text (t.fits, u.fits);
      bytes = subst (All IsByte) same_rest u.bytes;
    }
TookUnits-longer n c w pipe mid rest t (refused status) f e = cc

TookUnits-split :
    (n : ℕ) (w : WString) (pipe rest : Bytes) (x : Received ℕ)
    → ((c : ℕ) (mid : Bytes) → x ≡ received c mid → TookField 2 c pipe mid)
    → ((mid : Bytes)
        → All IsByte mid
        → (v : WString) (after : Bytes) → read_units n mid ≡ received v after
        → TookUnits n v mid after)
    → elim x [
      | received c mid ↦ elim (read_units n mid) [
        | received v after ↦ received (c ∷ v) after
        | refused status ↦ refused status
      ]
      | refused status ↦ refused status
    ]
      ≡ received w rest
    → TookUnits (suc n) w pipe rest
TookUnits-split n w pipe rest (received c mid) f g e =
    let t = f c mid refl in
    TookUnits-longer n c w pipe mid rest t (read_units n mid) (g mid t.bytes) e
TookUnits-split n w pipe rest (refused status) f g e = cc

pub Took-read_units :
    (n : ℕ) (w : WString) (pipe rest : Bytes)
    → All IsByte pipe
    → read_units n pipe ≡ received w rest
    → TookUnits n w pipe rest
unfolding read_units units
Took-read_units zero w pipe rest o e =
    let (none_read, same_rest) = received_parts e in
    record {
      written = subst (λ z. pipe ≡ units z rest) none_read same_rest;
      all_read = subst (λ z. length z ≡ 0) none_read refl;
      fits = subst (All IsUnit) none_read tt;
      bytes = subst (All IsByte) same_rest o;
    }
Took-read_units (suc n) w pipe rest o e =
    TookUnits-split n w pipe rest (read_field 2 pipe) (λ c mid. Took-read_field 2 c pipe mid o)
      (λ mid p v after. Took-read_units n v mid after p) e

pub then_parts :
    {A B : Type 0} (m : Reader A) (f : A → Reader B) (pipe : Bytes) (r : B) (rest : Bytes)
    → (m >>= f) pipe ≡ received r rest
    → (a : A) × (mid : Bytes) × (m pipe ≡ received a mid) × (f a mid ≡ received r rest)
unfolding ◌>>=◌
then_parts {A} {B} m f pipe r rest e = parts (m pipe) refl e
  where
    parts :
        (x : Received A)
        → m pipe ≡ x
        → elim x [ received a mid ↦ f a mid | refused status ↦ refused status ] ≡ received r rest
        → (a : A) × (mid : Bytes) × (m pipe ≡ received a mid) × (f a mid ≡ received r rest)
    parts (received a mid) i j = (a, mid, i, j)
    parts (refused status) i j = cc

pub field_case :
    {B G : Type 0} (k : ℕ) (f : ℕ → Reader B) (pipe : Bytes) (r : B) (rest : Bytes)
    → All IsByte pipe
    → (read_field k >>= f) pipe ≡ received r rest
    → ((n : ℕ) (mid : Bytes) → TookField k n pipe mid → f n mid ≡ received r rest → G)
    → G
field_case k f pipe r rest o e g =
    let (n, mid, i, j) = then_parts (read_field k) f pipe r rest e in
    g n mid (Took-read_field k n pipe mid o i) j

pub require_then :
    {B : Type 0} (b : Bool) (k : Reader B) (pipe : Bytes) (r : B) (rest : Bytes)
    → (require b >> k) pipe ≡ received r rest
    → (b ≡ true) × (k pipe ≡ received r rest)
unfolding ◌>>=◌ ◌>>◌ require
require_then true k pipe r rest e = (refl, e)
require_then false k pipe r rest e = cc
