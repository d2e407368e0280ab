-- ===== src/Control/Pipe/Messages.antt =====
-- Requests, responses and acknowledgements on the pipe, written in front of what is written after them:
-- AudioPlaybackConnector2/src/control/CommandPipeIo.cpp. A header is read field by field, which finds
-- the pipe closed where the one read of the code does.
use audio_playback_connector.Prelude.{
  ℕ, zero, suc, ◌/◌, Bool, not, ◌&&◌, Option, none, some, List, [], ◌∷◌, ◌==◌, if◌then◌else◌,
}
use audio_playback_connector.Text.Utf16.{WString}
use audio_playback_connector.Control.Protocol.{
  CommandType, unknown, list, status, connect, disconnect, reconnect, toggle_last, disconnect_all,
  reconnect_all, show, settings, default_show, default_set, default_clear, alias_set, alias_clear,
  alias_list, TargetKind, no_target, by_id, by_name, by_mac, last, auto, by_alias, default,
  ExitCode, success, invalid_request, not_found, ambiguous, operation_failed, unavailable, busy,
  indeterminate, command_number, target_number, CorrelationId, is_zero, RequestHeader,
  ResponseHeader, Acknowledgement, Request, Response, request_magic, response_magic,
  acknowledgement_magic, protocol_version, is_payload_byte_count_valid, is_known_exit_code,
  is_request_valid, payload_byte_count, is_request_header_valid, make_response_header,
  is_acknowledgement_valid,
}
use audio_playback_connector.Control.Pipe.Wire.{
  Bytes, Reader, ◌>>=◌, ◌>>◌, accept, require, field, read_field, units, read_units,
}

-- The cast of a number to an enumerator: the table's entry, or the first enumerator.
abbrev pub entry {ℓ} : {A : Type ℓ} → A → List A → ℕ → A
entry first [] n = first
entry first (x ∷ xs) zero = x
entry first (x ∷ xs) (suc n) = entry first xs n

unfoldable pub command_of : ℕ → CommandType
command_of = entry unknown (
    unknown ∷ list ∷ status ∷ connect ∷ disconnect ∷ reconnect ∷ toggle_last ∷ disconnect_all
    ∷ reconnect_all ∷ show ∷ settings ∷ default_show ∷ default_set ∷ default_clear ∷ alias_set
    ∷ alias_clear ∷ alias_list ∷ [])

unfoldable pub target_of : ℕ → TargetKind
target_of =
    entry no_target (no_target ∷ by_id ∷ by_name ∷ by_mac ∷ last ∷ auto ∷ by_alias ∷ default ∷ [])

-- 1 and 2 are no exit codes.
unfoldable pub exit_of : ℕ → ExitCode
exit_of = entry success (
    success ∷ success ∷ success ∷ invalid_request ∷ not_found ∷ ambiguous ∷ operation_failed
    ∷ unavailable ∷ busy ∷ indeterminate ∷ [])

unfoldable pub put_request_header : RequestHeader → Bytes → Bytes
put_request_header h after = field 4 h.magic (
    field 4 h.version (
      field 8 h.correlation_high (
        field 8 h.correlation_low (
          field 4 h.command (field 4 h.target (field 4 h.flags (field 4 h.payload_bytes after)))))))

unfoldable pub read_request_header : Reader RequestHeader
read_request_header = do
  magic ← read_field 4
  version ← read_field 4
  high ← read_field 8
  low ← read_field 8
  command ← read_field 4
  target ← read_field 4
  flags ← read_field 4
  count ← read_field 4
  accept (record {
    magic = magic;
    version = version;
    correlation_high = high;
    correlation_low = low;
    command = command;
    target = target;
    flags = flags;
    payload_bytes = count;
  })

-- The header of WriteRequest.
abbrev pub request_header : Request → ℕ → RequestHeader
request_header r count = record {
  magic = request_magic;
  version = protocol_version;
  correlation_high = r.correlation_id.high;
  correlation_low = r.correlation_id.low;
  command = command_number r.command;
  target = target_number r.target;
  flags = r.flags;
  payload_bytes = count;
}

-- WriteRequest; none where it refuses the request.
unfoldable pub write_request : Request → Bytes → Option Bytes
write_request r after = elim (payload_byte_count r.payload) [
  | none ↦ none
  | some count ↦
      if not (is_request_valid r)
      then none
      else some (put_request_header (request_header r count) (units r.payload after))
]

-- The request of ReadRequest.
abbrev pub request_of : RequestHeader → WString → Request
request_of h payload = record {
  command = command_of h.command;
  target = target_of h.target;
  flags = h.flags;
  payload = payload;
  correlation_id = record { high = h.correlation_high; low = h.correlation_low };
}

unfoldable pub read_request : Reader Request
read_request = do
  header ← read_request_header
  require (is_request_header_valid header)
  payload ← read_units (header.payload_bytes / 2)
  require (is_request_valid (request_of header payload))
  accept (request_of header payload)

unfoldable pub put_response_header : ResponseHeader → Bytes → Bytes
put_response_header h after = field 4 h.magic (
    field 4 h.version (
      field 8 h.correlation_high
        (field 8 h.correlation_low (field 4 h.exit_code (field 4 h.payload_bytes after)))))

unfoldable pub read_response_header : Reader ResponseHeader
read_response_header = do
  magic ← read_field 4
  version ← read_field 4
  high ← read_field 8
  low ← read_field 8
  code ← read_field 4
  count ← read_field 4
  accept (record {
    magic = magic;
    version = version;
    correlation_high = high;
    correlation_low = low;
    exit_code = code;
    payload_bytes = count;
  })

unfoldable pub write_response : Response → Bytes → Option Bytes
write_response r after = elim (make_response_header r) [
  | none ↦ none
  | some header ↦ some (put_response_header header (units r.payload after))
]

-- The tests of ReadResponse.
unfoldable pub is_response_header_valid : ResponseHeader → Bool
is_response_header_valid h =
    h.magic == response_magic
    && h.version == protocol_version
    && not (is_zero (record { high = h.correlation_high; low = h.correlation_low }))
    && is_known_exit_code h.exit_code
    && is_payload_byte_count_valid h.payload_bytes

unfoldable pub read_response : Reader Response
read_response = do
  header ← read_response_header
  require (is_response_header_valid header)
  payload ← read_units (header.payload_bytes / 2)
  accept (record {
    code = exit_of header.exit_code;
    payload = payload;
    correlation_id = record { high = header.correlation_high; low = header.correlation_low };
  })

unfoldable pub write_acknowledgement : CorrelationId → Bytes → Option Bytes
write_acknowledgement c after =
    if is_zero c
    then none
    else some (
        field 4 acknowledgement_magic
          (field 4 protocol_version (field 8 c.high (field 8 c.low after))))

unfoldable pub read_acknowledgement : CorrelationId → Reader (Unit {0})
read_acknowledgement expected = do
  magic ← read_field 4
  version ← read_field 4
  high ← read_field 8
  low ← read_field 8
  let acknowledgement : Acknowledgement = record {
    magic = magic;
    version = version;
    correlation_high = high;
    correlation_low = low;
  }
  require (is_acknowledgement_valid acknowledgement expected)
