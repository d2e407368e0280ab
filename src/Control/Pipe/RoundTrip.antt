-- ===== src/Control/Pipe/RoundTrip.antt =====
-- Writing and reading requests: WriteRequest and ReadRequest of
-- AudioPlaybackConnector2/src/control/CommandPipeIo.cpp.
use audio_playback_connector.Prelude.{
  ℕ, ◌*◌, ◌/◌, ◌^◌, ◌≤◌, ◌<◌, ◌≡◌, ap, refl, true, some, length, All, arith,
}
use audio_playback_connector.Text.Utf16.{WString}
use audio_playback_connector.Control.Protocol.{
  CommandType, unknown, TargetKind, no_target, command_number, target_number, CorrelationId,
  RequestHeader, Request, is_payload_byte_count_valid, is_request_valid, payload_byte_count,
  is_request_header_valid,
}
use audio_playback_connector.Control.Protocol.Grammar.{
  is_request_valid_iff, command_is_known, known_target,
}
use audio_playback_connector.Control.Pipe.Wire.{
  Bytes, received, ◌>>=◌, ◌>>◌, accept, require, units, range, IsUnit, read_field-field,
  read_units-units,
}
use audio_playback_connector.Control.Pipe.Messages.{
  command_of, target_of, put_request_header, read_request_header, request_header, request_of,
  write_request, read_request,
}

-- The fields of a header fit into their bytes.
record Fits (h : RequestHeader) : Type 0 where
  magic : h.magic < range 4
  version : h.version < range 4
  high : h.correlation_high < range 8
  low : h.correlation_low < range 8
  command : h.command < range 4
  target : h.target < range 4
  flags : h.flags < range 4
  count : h.payload_bytes < range 4

read_request_header-put_request_header :
    (h : RequestHeader) (after : Bytes)
    → Fits h
    → read_request_header (put_request_header h after) ≡ received h after
unfolding ◌>>=◌ accept read_request_header put_request_header
read_request_header-put_request_header h after f =
    rw
      (
        read_request_header,
        put_request_header,
        ◌>>=◌,
        read_field-field 4 h.magic _ f.magic,
        read_field-field 4 h.version _ f.version,
        read_field-field 8 h.correlation_high _ f.high,
        read_field-field 8 h.correlation_low _ f.low,
        read_field-field 4 h.command _ f.command,
        read_field-field 4 h.target _ f.target,
        read_field-field 4 h.flags _ f.flags,
        read_field-field 4 h.payload_bytes after f.count,
      )
      refl

command_of-command_number : (c : CommandType) → command_of (command_number c) ≡ c
unfolding command_of
command_of-command_number unknown = refl
command_of-command_number _ = refl

target_of-target_number : (t : TargetKind) → target_of (target_number t) ≡ t
unfolding target_of
target_of-target_number no_target = refl
target_of-target_number _ = refl

-- What the types of a request's fields leave to say: 64-bit halves of the correlation identifier and 16-bit units.
pub record IsWide (c : CorrelationId) (payload : WString) : Type 0 where
  pub high_fits : c.high < 2 ^ 64
  pub low_fits : c.low < 2 ^ 64
  pub units_fit : All IsUnit payload

pub payload_byte_count_lem :
    (w : WString)
    → length w ≤ 32768
    → (payload_byte_count w ≡ some (length w * 2))
      × (is_payload_byte_count_valid (length w * 2) ≡ true)
unfolding payload_byte_count is_payload_byte_count_valid
payload_byte_count_lem w h = (ground arith, ground arith)

pub half : (n : ℕ) → n * 2 / 2 ≡ n
half n = omega arith

command_number-range : (c : CommandType) → command_number c < range 4
unfolding range
command_number-range unknown = omega arith
command_number-range _ = omega arith

target_number-range : (t : TargetKind) → target_number t < range 4
unfolding range
target_number-range no_target = omega arith
target_number-range _ = omega arith

request_header-Fits :
    (r : Request)
    → IsWide r.correlation_id r.payload
    → r.flags ≤ 3
    → length r.payload ≤ 32768
    → Fits (request_header r (length r.payload * 2))
unfolding range
request_header-Fits r w f l = record {
  magic = omega arith;
  version = omega arith;
  high = omega (arith, w.high_fits);
  low = omega (arith, w.low_fits);
  command = command_number-range r.command;
  target = target_number-range r.target;
  flags = omega (arith, f);
  count = omega (arith, l);
}

-- The tests of the header, for the header of a valid request.
request_header_valid :
    (r : Request)
    → is_request_valid r ≡ true
    → is_request_header_valid (request_header r (length r.payload * 2)) ≡ true
unfolding is_request_header_valid
request_header_valid r v =
    let (z, f, l, n, s) = (is_request_valid_iff r).0 v in
    rw (z, command_is_known r v, known_target r.target, (payload_byte_count_lem r.payload l).1)
      (ground (arith, f))

request_of-request_header : (r : Request) (n : ℕ) → request_of (request_header r n) r.payload ≡ r
request_of-request_header r n =
    rw (command_of-command_number r.command, target_of-target_number r.target) refl

-- A valid request, its identifier of twice 64 bits and its units of 16, is written, and its bytes, whatever
-- is written after them, are read as the same request.
pub read_request-write_request :
    (r : Request) (after : Bytes)
    → is_request_valid r ≡ true
    → IsWide r.correlation_id r.payload
    → (pipe : Bytes) × (write_request r after ≡ some pipe) × (read_request pipe ≡ received r after)
unfolding write_request read_request ◌>>=◌ ◌>>◌ require accept
read_request-write_request r after v w =
    let (z, f, l, n, s) = (is_request_valid_iff r).0 v in
    let b = payload_byte_count_lem r.payload l in
    (
      put_request_header (request_header r (length r.payload * 2)) (units r.payload after),
      rw (write_request, b.0, v) refl,
      rw
          (
            read_request,
            ◌>>◌,
            ◌>>=◌,
            read_request_header-put_request_header _ (units r.payload after)
                (request_header-Fits r w f l),
            request_header_valid r v,
            half (length r.payload),
            read_units-units r.payload after w.units_fit,
            request_of-request_header r (length r.payload * 2),
            v,
          )
          (ap (λ q. received q after) (request_of-request_header r (length r.payload * 2))),
    )
