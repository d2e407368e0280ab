-- ===== src/Control/Protocol.antt =====
-- The messages of the control pipe and their validation:
-- AudioPlaybackConnector2/include/control/CommandProtocol.hpp. Sizes and header fields are unsigned
-- numbers of 32 or 64 bits; `sizeof(wchar_t)` is 2.
pub mod Lines
pub mod Grammar
use audio_playback_connector.Prelude.{
  ℕ, zero, suc, ◌+◌, ◌*◌, ◌/◌, ◌^◌, ◌-◌, Bool, true, false, not, ◌&&◌, ◌||◌, Option, none, some,
  List, [], ◌∷◌, leb, ltb, ◌==◌, ◌%◌, if◌then◌else◌, length,
}
use audio_playback_connector.Text.{is_empty}
use audio_playback_connector.Text.Utf16.{WString, contains_unit}

abbrev pub protocol_version : ℕ
protocol_version = 2

abbrev pub request_magic : ℕ
request_magic = 0x32514341

abbrev pub response_magic : ℕ
response_magic = 0x32524341

abbrev pub acknowledgement_magic : ℕ
acknowledgement_magic = 0x32414341

abbrev pub max_payload_bytes : ℕ
max_payload_bytes = 64 * 1024

abbrev pub u32_max : ℕ
u32_max = 2 ^ 32 - 1

pub data CommandType : Type 0 where
  unknown list status connect disconnect reconnect toggle_last disconnect_all reconnect_all show
        settings default_show default_set default_clear alias_set alias_clear alias_list :
      CommandType

pub data TargetKind : Type 0 where
  no_target by_id by_name by_mac last auto by_alias default : TargetKind

pub data ExitCode : Type 0 where
  success invalid_request not_found ambiguous operation_failed unavailable busy indeterminate :
      ExitCode

-- The numbers of the enumerators.
abbrev pub command_number : CommandType → ℕ
command_number unknown = 0
command_number list = 1
command_number status = 2
command_number connect = 3
command_number disconnect = 4
command_number reconnect = 5
command_number toggle_last = 6
command_number disconnect_all = 7
command_number reconnect_all = 8
command_number show = 9
command_number settings = 10
command_number default_show = 11
command_number default_set = 12
command_number default_clear = 13
command_number alias_set = 14
command_number alias_clear = 15
command_number alias_list = 16

abbrev pub target_number : TargetKind → ℕ
target_number no_target = 0
target_number by_id = 1
target_number by_name = 2
target_number by_mac = 3
target_number last = 4
target_number auto = 5
target_number by_alias = 6
target_number default = 7

abbrev pub exit_number : ExitCode → ℕ
exit_number success = 0
exit_number invalid_request = 3
exit_number not_found = 4
exit_number ambiguous = 5
exit_number operation_failed = 6
exit_number unavailable = 7
exit_number busy = 8
exit_number indeterminate = 9

pub record CorrelationId : Type 0 where
  pub high : ℕ
  pub low : ℕ

abbrev pub is_zero : CorrelationId → Bool
is_zero c = c.high == 0 && c.low == 0

pub record RequestHeader : Type 0 where
  pub magic : ℕ
  pub version : ℕ
  pub correlation_high : ℕ
  pub correlation_low : ℕ
  pub command : ℕ
  pub target : ℕ
  pub flags : ℕ
  pub payload_bytes : ℕ

pub record ResponseHeader : Type 0 where
  pub magic : ℕ
  pub version : ℕ
  pub correlation_high : ℕ
  pub correlation_low : ℕ
  pub exit_code : ℕ
  pub payload_bytes : ℕ

pub record Acknowledgement : Type 0 where
  pub magic : ℕ
  pub version : ℕ
  pub correlation_high : ℕ
  pub correlation_low : ℕ

pub record Request : Type 0 where
  pub command : CommandType
  pub target : TargetKind
  pub flags : ℕ
  pub payload : WString
  pub correlation_id : CorrelationId

pub record Response : Type 0 where
  pub code : ExitCode
  pub payload : WString
  pub correlation_id : CorrelationId

unfoldable pub is_payload_byte_count_valid : ℕ → Bool
is_payload_byte_count_valid n = leb n max_payload_bytes && n % 2 == 0

abbrev pub is_known_command : ℕ → Bool
is_known_command n = leb 1 n && leb n 16

abbrev pub is_known_target : ℕ → Bool
is_known_target n = leb n 7

abbrev pub is_known_exit_code : ℕ → Bool
is_known_exit_code n = n == 0 || leb 3 n && leb n 9

-- `flags & ~(CommandFlagJson | CommandFlagRaw)`: all but the two lowest bits.
abbrev pub unknown_flags : ℕ → ℕ
unknown_flags flags = flags / 4 * 4

abbrev pub is_explicit : TargetKind → Bool
is_explicit by_id = true
is_explicit by_name = true
is_explicit by_mac = true
is_explicit auto = true
is_explicit by_alias = true
is_explicit _ = false

abbrev pub is_remembered : TargetKind → Bool
is_remembered last = true
is_remembered default = true
is_remembered _ = false

abbrev pub is_none : TargetKind → Bool
is_none no_target = true
is_none _ = false

-- `payload.find(L'\n')`.
unfoldable pub find_newline : WString → Option ℕ
find_newline [] = none
find_newline (c ∷ w) =
    let rest = find_newline w in
    if c == 0x0A then some 0 else elim rest [ none ↦ none | some n ↦ some (suc n) ]

-- The units from an index on.
unfoldable pub drop : ℕ → WString → WString
drop zero w = w
drop (suc n) [] = []
drop (suc n) (c ∷ w) = drop n w

-- `find_first_of(L"\r\n", ...) == npos`.
abbrev pub is_one_line : WString → Bool
is_one_line w = not (contains_unit 0x0D w) && not (contains_unit 0x0A w)

abbrev pub has_explicit_target : Request → Bool
has_explicit_target r = is_explicit r.target && not (is_empty r.payload)

-- The case of AliasSet.
unfoldable pub is_alias_payload : WString → Bool
is_alias_payload w = elim (find_newline w) [
  | none ↦ false
  | some separator ↦
      ltb 0 separator && ltb (suc separator) (length w) && is_one_line (drop (suc separator) w)
]

-- The `switch` on the command.
unfoldable pub is_shape_valid : CommandType → Request → Bool
is_shape_valid connect r = has_explicit_target r || is_remembered r.target && is_empty r.payload
is_shape_valid disconnect r = has_explicit_target r || is_remembered r.target && is_empty r.payload
is_shape_valid reconnect r = has_explicit_target r || is_remembered r.target && is_empty r.payload
is_shape_valid toggle_last r = has_explicit_target r || is_remembered r.target && is_empty r.payload
is_shape_valid default_set r = has_explicit_target r
is_shape_valid alias_clear r = has_explicit_target r
is_shape_valid alias_set r = is_explicit r.target && is_alias_payload r.payload
is_shape_valid unknown r = false
is_shape_valid _ r = is_none r.target && is_empty r.payload

unfoldable pub is_request_valid : Request → Bool
is_request_valid r =
    if is_zero r.correlation_id
      || not (is_known_command (command_number r.command))
      || not (is_known_target (target_number r.target))
      || not (unknown_flags r.flags == 0)
      || ltb (max_payload_bytes / 2) (length r.payload)
      || contains_unit 0 r.payload
    then false
    else is_shape_valid r.command r

unfoldable pub payload_byte_count : WString → Option ℕ
payload_byte_count w =
    let count = length w * 2 in
    if ltb (u32_max / 2) (length w)
    then none
    else if not (is_payload_byte_count_valid count)
    then none
    else some count

unfoldable pub is_request_header_valid : RequestHeader → Bool
is_request_header_valid h =
    h.magic == request_magic
    && h.version == protocol_version
    && not (is_zero (record { high = h.correlation_high; low = h.correlation_low }))
    && is_known_command h.command
    && is_known_target h.target
    && unknown_flags h.flags == 0
    && is_payload_byte_count_valid h.payload_bytes

unfoldable pub make_response_header : Response → Option ResponseHeader
make_response_header r = elim (payload_byte_count r.payload) [
  | none ↦ none
  | some count ↦
      if is_zero r.correlation_id || not (is_known_exit_code (exit_number r.code))
      then none
      else some (record {
        magic = response_magic;
        version = protocol_version;
        correlation_high = r.correlation_id.high;
        correlation_low = r.correlation_id.low;
        exit_code = exit_number r.code;
        payload_bytes = count;
      })
]

unfoldable pub is_acknowledgement_valid : Acknowledgement → CorrelationId → Bool
is_acknowledgement_valid a expected =
    a.magic == acknowledgement_magic
    && a.version == protocol_version
    && a.correlation_high == expected.high
    && a.correlation_low == expected.low
