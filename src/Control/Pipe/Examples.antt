-- ===== src/Control/Pipe/Examples.antt =====
-- Tests of the control pipe's messages (AudioPlaybackConnector2/src/control/CommandPipeIo.cpp and
-- AudioPlaybackConnector2/include/control/CommandProtocol.hpp), and the theorems at concrete inputs.
use audio_playback_connector.Prelude.{
  All, ◌≡◌, ◌≤◌, ◌↔◌, refl, true, false, some, [], ◌∷◌, ◌++◌, length, arith,
}
use audio_playback_connector.Text.{wide}
use audio_playback_connector.Text.Utf16.{contains_unit}
use audio_playback_connector.Control.Protocol.{
  Request, Response, CorrelationId, alias_set, by_name, not_found, is_zero, is_request_valid,
  is_shape_valid, is_alias_payload, find_newline, drop,
}
use audio_playback_connector.Control.Protocol.Grammar.{Shape, is_request_valid_iff}
use audio_playback_connector.Control.Pipe.Taken.{IsByte, field-IsByte, units-IsByte}
use audio_playback_connector.Control.Pipe.Exact.{read_request_iff}
use audio_playback_connector.Control.Pipe.Wire.{units, Bytes, received, success, closed}
use audio_playback_connector.Control.Pipe.Messages.{
  request_header, put_request_header, write_request, read_request, write_response, read_response,
}
use audio_playback_connector.Control.Pipe.Transfer.{
  transferred, transfer, transfer_in_order, transfer_ends,
}
use audio_playback_connector.Control.Pipe.RoundTrip.{IsWide, read_request-write_request}
use audio_playback_connector.Control.Pipe.Answers.{read_response-write_response}

abbrev ours : CorrelationId
ours = record { high = 1; low = 2 }

-- The alias "TV" for the device called "Den".
abbrev rename_den : Request
rename_den = record {
  command = alias_set;
  target = by_name;
  flags = 1;
  payload = wide "Den" ++ 0x0A ∷ wide "TV";
  correlation_id = ours;
}

rename_den_valid : is_request_valid rename_den ≡ true
unfolding is_request_valid is_shape_valid is_alias_payload find_newline drop contains_unit
rename_den_valid = refl

-- A second line break is refused.
two_breaks :
    is_request_valid (record rename_den { payload = wide "Den" ++ 0x0A ∷ wide "TV" ++ 0x0A ∷ [] })
    ≡ false
unfolding is_request_valid is_shape_valid is_alias_payload find_newline drop contains_unit
two_breaks = refl

rename_den-IsWide : IsWide ours rename_den.payload
rename_den-IsWide = record {
  high_fits = omega arith;
  low_fits = omega arith;
  units_fit =
      (omega arith, (omega arith, (omega arith, (omega arith, (omega arith, (omega arith, tt))))));
}

is_request_valid_iff_example : (is_request_valid rename_den ≡ true) ↔ (
    (is_zero ours ≡ false)
    × (rename_den.flags ≤ 3)
    × (length rename_den.payload ≤ 32768)
    × (contains_unit 0 rename_den.payload ≡ false)
    × Shape alias_set by_name rename_den.payload)
is_request_valid_iff_example = is_request_valid_iff rename_den

read_request-write_request_example :
    (pipe : Bytes) × (write_request rename_den (7 ∷ []) ≡ some pipe)
    × (read_request pipe ≡ received rename_den (7 ∷ []))
read_request-write_request_example =
    read_request-write_request rename_den (7 ∷ []) rename_den_valid rename_den-IsWide

-- The bytes of that request.
abbrev den_bytes : Bytes
den_bytes = put_request_header (request_header rename_den 12) (units rename_den.payload (7 ∷ []))

den_bytes-IsByte : All IsByte den_bytes
unfolding put_request_header
den_bytes-IsByte = field-IsByte 4 _ _ (
    field-IsByte 4 _ _ (
      field-IsByte 8 _ _ (
        field-IsByte 8 _ _ (
          field-IsByte 4 _ _ (
            field-IsByte 4 _ _ (
              field-IsByte 4 _ _ (
                field-IsByte 4 _ _
                  (units-IsByte rename_den.payload (7 ∷ []) (omega arith, tt)))))))))

read_request_iff_example :
    (read_request den_bytes ≡ received rename_den (7 ∷ []))
    ↔ IsWide ours rename_den.payload × (write_request rename_den (7 ∷ []) ≡ some den_bytes)
read_request_iff_example = read_request_iff den_bytes rename_den (7 ∷ []) den_bytes-IsByte

abbrev unknown_device : Response
unknown_device = record { code = not_found; payload = wide "no"; correlation_id = ours }

read_response-write_response_example :
    (pipe : Bytes) × (write_response unknown_device [] ≡ some pipe)
    × (read_response pipe ≡ received unknown_device [])
read_response-write_response_example =
    read_response-write_response unknown_device [] refl (omega arith) (record {
      high_fits = omega arith;
      low_fits = omega arith;
      units_fit = (omega arith, (omega arith, tt));
    })

abbrev block : Bytes
block = 1 ∷ 2 ∷ 3 ∷ []

-- Two bytes and then one.
block_sent : transfer (transferred 2 ∷ transferred 1 ∷ []) block [] ≡ (some success, block)
unfolding transfer drop
block_sent = refl

-- The peer goes away after two bytes.
block_cut : transfer (transferred 2 ∷ transferred 0 ∷ []) block [] ≡ (some closed, 1 ∷ 2 ∷ [])
unfolding transfer drop
block_cut = refl

transfer_in_order_example :
    (tail : Bytes) × (block ≡ (transfer (transferred 2 ∷ transferred 0 ∷ []) block []).1 ++ tail)
    × (((transfer (transferred 2 ∷ transferred 0 ∷ []) block []).0 ≡ some success) ↔ (tail ≡ []))
transfer_in_order_example = transfer_in_order (transferred 2 ∷ transferred 0 ∷ []) block

transfer_ends_example :
    (transfer (transferred 2 ∷ transferred 1 ∷ transferred 1 ∷ []) block []).0 ≡ some success
transfer_ends_example =
    transfer_ends (transferred 2 ∷ transferred 1 ∷ transferred 1 ∷ []) block
      (omega arith, (omega arith, (omega arith, tt))) (omega arith)
