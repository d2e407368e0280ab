-- ===== src/Control/Pipe/Exact.antt =====
-- What ReadRequest accepts, of AudioPlaybackConnector2/src/control/CommandPipeIo.cpp: exactly what
-- WriteRequest writes.
use audio_playback_connector.Prelude.{
  ℕ, zero, suc, ◌+◌, ◌*◌, ◌/◌, ◌%◌, ◌≤◌, ◌<◌, ◌≡◌, refl, sym, ap, subst, ◌∙◌, List, [], ◌∷◌, All,
  arith, Bool, true, ◌&&◌, ◌==◌, ◌↔◌, some, length,
}
use audio_playback_connector.Text.Utf16.{WString}
use audio_playback_connector.Control.Protocol.{
  unknown, list, status, connect, disconnect, reconnect, toggle_last, disconnect_all, reconnect_all,
  show, settings, default_show, default_set, default_clear, alias_set, alias_clear, alias_list,
  no_target, by_id, by_name, by_mac, last, auto, by_alias, default, command_number, target_number,
  RequestHeader, Request, request_magic, protocol_version, is_payload_byte_count_valid,
  is_request_valid, is_request_header_valid,
}
use audio_playback_connector.Control.Pipe.Wire.{Bytes, received, accept, field, range, read_units}
use audio_playback_connector.Control.Pipe.Messages.{
  entry, command_of, target_of, put_request_header, read_request_header, request_header, request_of,
  write_request, read_request,
}
use audio_playback_connector.Control.Pipe.RoundTrip.{
  IsWide, payload_byte_count_lem, read_request-write_request,
}
use audio_playback_connector.Control.Pipe.Taken.{
  IsByte, TookUnits, received_parts, Took-read_units, then_parts, field_case, require_then,
}

record TookHeader (h : RequestHeader) (pipe rest : Bytes) : Type 0 where
  written : pipe ≡ put_request_header h rest
  high_fits : h.correlation_high < range 8
  low_fits : h.correlation_low < range 8
  bytes : All IsByte rest

Took-read_request_header :
    (h : RequestHeader) (pipe rest : Bytes)
    → All IsByte pipe
    → read_request_header pipe ≡ received h rest
    → TookHeader h pipe rest
unfolding read_request_header put_request_header accept
Took-read_request_header h p0 rest o e0 = field_case 4 _ p0 h rest o e0 λ magic p1 t1 e1.
    field_case 4 _ p1 h rest t1.bytes e1 λ version p2 t2 e2.
      field_case 8 _ p2 h rest t2.bytes e2 λ high p3 t3 e3.
        field_case 8 _ p3 h rest t3.bytes e3 λ low p4 t4 e4.
          field_case 4 _ p4 h rest t4.bytes e4 λ command p5 t5 e5.
            field_case 4 _ p5 h rest t5.bytes e5 λ target p6 t6 e6.
              field_case 4 _ p6 h rest t6.bytes e6 λ flags p7 t7 e7.
                field_case 4 _ p7 h rest t7.bytes e7 λ count p8 t8 e8.
                  let (same_header, same_rest) = received_parts e8 in
                  subst (λ x. TookHeader x p0 rest) same_header
                    (subst (TookHeader _ p0) same_rest (record {
                      written =
                          t1.written
                          ∙ ap (field 4 magic) (
                              t2.written
                              ∙ ap (field 4 version) (
                                  t3.written
                                  ∙ ap (field 8 high) (
                                      t4.written
                                      ∙ ap (field 8 low) (
                                          t5.written
                                          ∙ ap (field 4 command) (
                                              t6.written
                                              ∙ ap (field 4 target)
                                                  (t7.written ∙ ap (field 4 flags) t8.written))))));
                      high_fits = t3.fits;
                      low_fits = t4.fits;
                      bytes = t8.bytes;
                    }))

-- The entries of a table are numbered from `k` on.
abbrev counts {ℓ} : {A : Type ℓ} → (A → ℕ) → ℕ → List A → Bool
counts number k [] = true
counts number k (x ∷ xs) = (number x == k) && counts number (suc k) xs

number-entry {ℓ} :
    {A : Type ℓ} (number : A → ℕ) (first : A) (k : ℕ) (xs : List A) (n : ℕ)
    → counts number k xs ≡ true
    → n < length xs
    → number (entry first xs n) ≡ k + n
number-entry number first k [] n c h = absurd (omega (arith, h))
number-entry number first k (x ∷ xs) zero c h = ground arith
number-entry number first k (x ∷ xs) (suc n) c h =
    number-entry number first (suc k) xs n (ground arith) (omega (arith, h)) ∙ omega arith

numbered {ℓ} :
    {A : Type ℓ} (number : A → ℕ) (first : A) (xs : List A) (n : ℕ)
    → counts number 0 xs ≡ true
    → n < length xs
    → number (entry first xs n) ≡ n
numbered number first xs n c h = number-entry number first 0 xs n c h ∙ omega arith

command_number-command_of : (n : ℕ) → n ≤ 16 → command_number (command_of n) ≡ n
unfolding command_of
command_number-command_of n h =
    numbered command_number unknown
      (unknown ∷ list ∷ status ∷ connect ∷ disconnect ∷ reconnect ∷ toggle_last ∷ disconnect_all
        ∷ reconnect_all ∷ show ∷ settings ∷ default_show ∷ default_set ∷ default_clear ∷ alias_set
        ∷ alias_clear ∷ alias_list ∷ [])
      n refl (omega (arith, h))

target_number-target_of : (n : ℕ) → n ≤ 7 → target_number (target_of n) ≡ n
unfolding target_of
target_number-target_of n h =
    numbered target_number no_target
      (no_target ∷ by_id ∷ by_name ∷ by_mac ∷ last ∷ auto ∷ by_alias ∷ default ∷ []) n refl
      (omega (arith, h))

-- What the tests of a header leave of its fields.
record HeaderFacts (h : RequestHeader) : Type 0 where
  magic : h.magic ≡ request_magic
  version : h.version ≡ protocol_version
  command : h.command ≤ 16
  target : h.target ≤ 7
  size : h.payload_bytes ≤ 65536
  even : h.payload_bytes % 2 ≡ 0

HeaderFacts-valid : (h : RequestHeader) → is_request_header_valid h ≡ true → HeaderFacts h
unfolding is_request_header_valid is_payload_byte_count_valid
HeaderFacts-valid h e = record {
  magic = ground arith;
  version = ground arith;
  command = ground arith;
  target = ground arith;
  size = ground arith;
  even = ground arith;
}

-- A header that passes the tests is the one that the writer makes of the request.
request_header-request_of :
    (h : RequestHeader) (w : WString)
    → HeaderFacts h
    → length w ≡ h.payload_bytes / 2
    → request_header (request_of h w) (length w * 2) ≡ h
request_header-request_of h w f e =
    let count : length w * 2 ≡ h.payload_bytes = omega (arith, e, f.even) in
    rw
      (
        command_number-command_of h.command f.command,
        target_number-target_of h.target f.target,
        count,
        sym f.magic,
        sym f.version,
      )
      refl

-- What was taken is what the writer writes.
Written-parts :
    (h : RequestHeader) (w : WString) (pipe mid rest : Bytes)
    → TookHeader h pipe mid
    → TookUnits (h.payload_bytes / 2) w mid rest
    → is_request_header_valid h ≡ true
    → is_request_valid (request_of h w) ≡ true
    → IsWide (request_of h w).correlation_id w × (write_request (request_of h w) rest ≡ some pipe)
unfolding write_request range
Written-parts h w pipe mid rest t u v ok =
    let f = HeaderFacts-valid h v in
    let b = payload_byte_count_lem w (omega (arith, u.all_read, f.size)) in
    (
      record {
        high_fits = omega (arith, t.high_fits);
        low_fits = omega (arith, t.low_fits);
        units_fit = u.fits;
      },
      rw (write_request, b.0, ok, request_header-request_of h w f u.all_read)
          (ap some (sym (t.written ∙ ap (put_request_header h) u.written))),
    )

Written-read :
    (pipe : Bytes) (r : Request) (rest : Bytes)
    → All IsByte pipe
    → read_request pipe ≡ received r rest
    → IsWide r.correlation_id r.payload × (write_request r rest ≡ some pipe)
unfolding read_request write_request accept
Written-read pipe r rest o e0 =
    let (h, p1, i1, e1) = then_parts read_request_header _ pipe r rest e0 in
    let t = Took-read_request_header h pipe p1 o i1 in
    let (v, e2) = require_then (is_request_header_valid h) _ p1 r rest e1 in
    let (w, p2, i2, e3) = then_parts (read_units (h.payload_bytes / 2)) _ p1 r rest e2 in
    let u = Took-read_units _ w p1 p2 t.bytes i2 in
    let (ok, e4) = require_then (is_request_valid (request_of h w)) _ p2 r rest e3 in
    let (same_request, same_rest) = received_parts e4 in
    subst (λ q. IsWide q.correlation_id q.payload × (write_request q rest ≡ some pipe)) same_request
      (subst
        (λ q.
          IsWide (request_of h w).correlation_id w × (write_request (request_of h w) q ≡ some pipe))
        same_rest (Written-parts h w pipe p1 p2 t u v ok))

some_parts : {p q : Bytes} → some p ≡ some q → p ≡ q
some_parts e = cc

-- What is written is valid.
written_is_valid :
    (r : Request) (rest pipe : Bytes) → write_request r rest ≡ some pipe → is_request_valid r ≡ true
unfolding write_request
written_is_valid r rest pipe e = ground arith

-- Of a pipe of bytes, ReadRequest takes a request and leaves a rest exactly where the pipe holds what
-- WriteRequest writes of that request in front of that rest, with an identifier of twice 64 bits and units
-- of 16: so a request that is not valid, and any other form of a valid one, is refused.
pub read_request_iff :
    (pipe : Bytes) (r : Request) (rest : Bytes)
    → All IsByte pipe
    → (read_request pipe ≡ received r rest)
      ↔ IsWide r.correlation_id r.payload × (write_request r rest ≡ some pipe)
read_request_iff pipe r rest o = (
  Written-read pipe r rest o,
  λ (w, e).
      let (p, i, j) = read_request-write_request r rest (written_is_valid r rest pipe e) w in
      subst (λ q. read_request q ≡ received r rest) (some_parts (sym i ∙ e)) j,
)
