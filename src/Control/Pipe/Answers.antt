-- ===== src/Control/Pipe/Answers.antt =====
-- Writing and reading responses and acknowledgements:
-- AudioPlaybackConnector2/src/control/CommandPipeIo.cpp.
use audio_playback_connector.Prelude.{
  ◌*◌, ◌^◌, ◌≤◌, ◌<◌, ◌≡◌, ◌∙◌, ◌↔◌, sym, refl, Bool, true, false, ◌&&◌, some, ◌==◌, length, arith,
}
use audio_playback_connector.Control.Protocol.{
  acknowledgement_magic, protocol_version, response_magic, is_known_exit_code, ExitCode, success,
  exit_number, CorrelationId, is_zero, ResponseHeader, Response, make_response_header,
  is_acknowledgement_valid,
}
use audio_playback_connector.Control.Pipe.Wire.{
  Bytes, received, ◌>>=◌, ◌>>◌, accept, require, field, units, range, read_field-field,
  read_units-units,
}
use audio_playback_connector.Control.Pipe.RoundTrip.{IsWide, payload_byte_count_lem, half}
use audio_playback_connector.Control.Pipe.Messages.{
  exit_of, put_response_header, read_response_header, write_response, is_response_header_valid,
  read_response, write_acknowledgement, read_acknowledgement,
}

-- The fields of a response's header fit into their bytes.
record Fits (h : ResponseHeader) : Type 0 where
  magic : h.magic < range 4
  version : h.version < range 4
  high : h.correlation_high < range 8
  low : h.correlation_low < range 8
  code : h.exit_code < range 4
  count : h.payload_bytes < range 4

read_response_header-put_response_header :
    (h : ResponseHeader) (after : Bytes)
    → Fits h
    → read_response_header (put_response_header h after) ≡ received h after
unfolding ◌>>=◌ accept read_response_header put_response_header
read_response_header-put_response_header h after f =
    rw
      (
        read_response_header,
        put_response_header,
        ◌>>=◌,
        read_field-field 4 h.magic _ f.magic,
        read_field-field 4 h.version _ f.version,
        read_field-field 8 h.correlation_high _ f.high,
        read_field-field 8 h.correlation_low _ f.low,
        read_field-field 4 h.exit_code _ f.code,
        read_field-field 4 h.payload_bytes after f.count,
      )
      refl

exit_of-exit_number : (c : ExitCode) → exit_of (exit_number c) ≡ c
unfolding exit_of
exit_of-exit_number success = refl
exit_of-exit_number _ = refl

exit_number-range : (c : ExitCode) → exit_number c < range 4
unfolding range
exit_number-range success = omega arith
exit_number-range _ = omega arith

exit_number-is_known : (c : ExitCode) → is_known_exit_code (exit_number c) ≡ true
exit_number-is_known success = refl
exit_number-is_known _ = refl

abbrev response_header : Response → ResponseHeader
response_header r = record {
  magic = response_magic;
  version = protocol_version;
  correlation_high = r.correlation_id.high;
  correlation_low = r.correlation_id.low;
  exit_code = exit_number r.code;
  payload_bytes = length r.payload * 2;
}

make_response_header_lem :
    (r : Response)
    → is_zero r.correlation_id ≡ false
    → length r.payload ≤ 32768
    → make_response_header r ≡ some (response_header r)
unfolding make_response_header
make_response_header_lem r z l =
    rw
      (make_response_header, (payload_byte_count_lem r.payload l).0, z, exit_number-is_known r.code)
      refl

response_header-Fits :
    (r : Response)
    → IsWide r.correlation_id r.payload
    → length r.payload ≤ 32768
    → Fits (response_header r)
unfolding range
response_header-Fits r w l = record {
  magic = omega arith;
  version = omega arith;
  high = omega (arith, w.high_fits);
  low = omega (arith, w.low_fits);
  code = exit_number-range r.code;
  count = omega (arith, l);
}

response_header_valid :
    (r : Response)
    → is_zero r.correlation_id ≡ false
    → length r.payload ≤ 32768
    → is_response_header_valid (response_header r) ≡ true
unfolding is_response_header_valid
response_header_valid r z l =
    rw
      (
        is_response_header_valid,
        z,
        exit_number-is_known r.code,
        (payload_byte_count_lem r.payload l).1,
      )
      refl

-- A response with a correlation identifier of twice 64 bits, not 0, and at most 32768 units of 16 bits is
-- written, and its bytes, whatever is written after them, are read as the same response.
pub read_response-write_response :
    (r : Response) (after : Bytes)
    → is_zero r.correlation_id ≡ false
    → length r.payload ≤ 32768
    → IsWide r.correlation_id r.payload
    → (pipe : Bytes) × (write_response r after ≡ some pipe)
      × (read_response pipe ≡ received r after)
unfolding write_response read_response ◌>>=◌ ◌>>◌ require accept
read_response-write_response r after z l w = (
  put_response_header (response_header r) (units r.payload after),
  rw (write_response, make_response_header_lem r z l) refl,
  rw
      (
        read_response,
        ◌>>◌,
        ◌>>=◌,
        read_response_header-put_response_header _ (units r.payload after)
            (response_header-Fits r w l),
        response_header_valid r z l,
        half (length r.payload),
        read_units-units r.payload after w.units_fit,
        exit_of-exit_number r.code,
      )
      refl,
)

same_id : (c d : CorrelationId) → ((c.high == d.high && c.low == d.low) ≡ true) ↔ (c ≡ d)
same_id c d = (λ h. ground arith, λ e. ground arith)

require_iff : (b : Bool) (after : Bytes) → (require b after ≡ received tt after) ↔ (b ≡ true)
unfolding require
require_iff true after = (λ h. refl, λ h. refl)
require_iff false after = (λ h. cc, λ h. cc)

abbrev acknowledgement_bytes : CorrelationId → Bytes → Bytes
acknowledgement_bytes c after =
    field 4 acknowledgement_magic (field 4 protocol_version (field 8 c.high (field 8 c.low after)))

read_acknowledgement_lem :
    (c expected : CorrelationId) (after : Bytes)
    → c.high < 2 ^ 64
    → c.low < 2 ^ 64
    → read_acknowledgement expected (acknowledgement_bytes c after)
      ≡ require (c.high == expected.high && c.low == expected.low) after
unfolding read_acknowledgement ◌>>=◌ range is_acknowledgement_valid
read_acknowledgement_lem c expected after h l =
    rw
      (
        read_acknowledgement,
        ◌>>=◌,
        read_field-field 4 acknowledgement_magic _ (omega arith),
        read_field-field 4 protocol_version _ (omega arith),
        read_field-field 8 c.high _ (omega (arith, h)),
        read_field-field 8 c.low after (omega (arith, l)),
      )
      refl

-- An acknowledgement is written for every correlation identifier but zero, and is accepted by who waits for that
-- identifier, and by nobody who waits for another one.
pub read_acknowledgement-write_acknowledgement :
    (c expected : CorrelationId) (after : Bytes)
    → is_zero c ≡ false
    → c.high < 2 ^ 64
    → c.low < 2 ^ 64
    → (pipe : Bytes) × (write_acknowledgement c after ≡ some pipe)
      × ((read_acknowledgement expected pipe ≡ received tt after) ↔ (c ≡ expected))
unfolding write_acknowledgement
read_acknowledgement-write_acknowledgement c expected after z h l =
    let test : read_acknowledgement expected (acknowledgement_bytes c after)
        ≡ require (c.high == expected.high && c.low == expected.low) after =
      read_acknowledgement_lem c expected after h l in
    let same = same_id c expected in
    let check = require_iff (c.high == expected.high && c.low == expected.low) after in
    (
      acknowledgement_bytes c after,
      rw (write_acknowledgement, z) refl,
      (λ e. same.0 (check.0 (sym test ∙ e)), λ e. test ∙ check.1 (same.1 e)),
    )
