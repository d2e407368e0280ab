-- ===== src/Control/Protocol/Grammar.antt =====
-- The requests that IsRequestValid of AudioPlaybackConnector2/include/control/CommandProtocol.hpp accepts, as
-- a grammar.
use audio_playback_connector.Prelude.{
  ◌/◌, ◌≤◌, ◌≡◌, ◌≢◌, ◌↔◌, refl, sym, subst, ◌∙◌, Bool, true, false, not, ◌&&◌, ◌||◌, [], ◌∷◌, ◌++◌,
  ltb, ◌==◌, if◌then◌else◌, length, arith,
}
use audio_playback_connector.Text.{is_empty}
use audio_playback_connector.Text.Utf16.{WString, contains_unit}
use audio_playback_connector.Control.Protocol.{
  is_known_command, is_known_target, command_number, target_number, unknown_flags, Request,
  CommandType, TargetKind, unknown, list, status, connect, disconnect, reconnect, toggle_last,
  disconnect_all, reconnect_all, show, settings, default_show, default_set, default_clear,
  alias_set, alias_clear, alias_list, is_explicit, is_remembered, no_target, is_one_line,
  is_alias_payload, is_shape_valid, is_request_valid, is_zero, max_payload_bytes,
  has_explicit_target, is_none,
}
use audio_playback_connector.Control.Protocol.Lines.{
  is_alias_payload-TwoLines, TwoLines-is_alias_payload,
}

-- The commands without a target.
pub data IsPlain : CommandType → Type 0 where
  list_devices : IsPlain list
  status_of_all : IsPlain status
  disconnects_all : IsPlain disconnect_all
  reconnects_all : IsPlain reconnect_all
  shows : IsPlain show
  opens_settings : IsPlain settings
  default_shown : IsPlain default_show
  default_cleared : IsPlain default_clear
  aliases_listed : IsPlain alias_list

-- The commands for one device, which may also be the last or the default one.
pub data IsConnection : CommandType → Type 0 where
  connects : IsConnection connect
  disconnects : IsConnection disconnect
  reconnects : IsConnection reconnect
  toggles : IsConnection toggle_last

-- The commands for one device that is named.
pub data IsNaming : CommandType → Type 0 where
  sets_default : IsNaming default_set
  clears_alias : IsNaming alias_clear

-- The shapes of a request: command, target and payload. An alias is set by a payload of two lines: the
-- device, and the alias.
pub data Shape : CommandType → TargetKind → WString → Type 0 where
  plain : {c : CommandType} → IsPlain c → Shape c no_target []
  aimed :
      {c : CommandType} {t : TargetKind} {w : WString}
      → IsConnection c
      → is_explicit t ≡ true
      → w ≢ []
      → Shape c t w
  remembered :
      {c : CommandType} {t : TargetKind} → IsConnection c → is_remembered t ≡ true → Shape c t []
  named :
      {c : CommandType} {t : TargetKind} {w : WString}
      → IsNaming c
      → is_explicit t ≡ true
      → w ≢ []
      → Shape c t w
  aliased :
      {t : TargetKind} (device alias : WString)
      → is_explicit t ≡ true
      → device ≢ []
      → contains_unit 0x0A device ≡ false
      → alias ≢ []
      → is_one_line alias ≡ true
      → Shape alias_set t (device ++ 0x0A ∷ alias)

-- The cases of the switch.
plain_case :
    {c : CommandType}
    → IsPlain c
    → (r : Request) → is_shape_valid c r ≡ (is_none r.target && is_empty r.payload)
unfolding is_shape_valid
plain_case list_devices r = refl
plain_case _ r = refl

connection_case :
    {c : CommandType}
    → IsConnection c
    → (r : Request)
    → is_shape_valid c r ≡ (has_explicit_target r || is_remembered r.target && is_empty r.payload)
unfolding is_shape_valid
connection_case connects r = refl
connection_case _ r = refl

naming_case :
    {c : CommandType} → IsNaming c → (r : Request) → is_shape_valid c r ≡ has_explicit_target r
unfolding is_shape_valid
naming_case sets_default r = refl
naming_case _ r = refl

-- Every command has a case.
data Case : CommandType → Type 0 where
  for_plain : {c : CommandType} → IsPlain c → Case c
  for_connection : {c : CommandType} → IsConnection c → Case c
  for_naming : {c : CommandType} → IsNaming c → Case c
  for_alias : Case alias_set
  for_none : Case unknown

case_of : (c : CommandType) → Case c
case_of unknown = for_none
case_of list = for_plain list_devices
case_of status = for_plain status_of_all
case_of connect = for_connection connects
case_of disconnect = for_connection disconnects
case_of reconnect = for_connection reconnects
case_of toggle_last = for_connection toggles
case_of disconnect_all = for_plain disconnects_all
case_of reconnect_all = for_plain reconnects_all
case_of show = for_plain shows
case_of settings = for_plain opens_settings
case_of default_show = for_plain default_shown
case_of default_set = for_naming sets_default
case_of default_clear = for_plain default_cleared
case_of alias_set = for_alias
case_of alias_clear = for_naming clears_alias
case_of alias_list = for_plain aliases_listed

plain-Shape :
    {c : CommandType}
    → IsPlain c
    → (t : TargetKind) (w : WString) → (is_none t && is_empty w) ≡ true
    → Shape c t w
plain-Shape k no_target [] h = plain k
plain-Shape k _ _ h = absurd (cc)

connection-Shape :
    {c : CommandType}
    → IsConnection c
    → (t : TargetKind) (w : WString)
    → (is_explicit t && not (is_empty w) || is_remembered t && is_empty w) ≡ true
    → Shape c t w
connection-Shape k t [] h = remembered k (ground arith)
connection-Shape k t (x ∷ w) h = aimed k (ground arith) (cc)

naming-Shape :
    {c : CommandType}
    → IsNaming c
    → (t : TargetKind) (w : WString) → (is_explicit t && not (is_empty w)) ≡ true
    → Shape c t w
naming-Shape k t [] h = absurd (ground arith)
naming-Shape k t (x ∷ w) h = named k (ground arith) (cc)

alias-Shape :
    (t : TargetKind) (w : WString)
    → (is_explicit t && is_alias_payload w) ≡ true
    → Shape alias_set t w
alias-Shape t w h =
    let l = is_alias_payload-TwoLines w (ground arith) in
    subst (Shape alias_set t) (sym l.split) (
      aliased l.device l.alias (ground arith) l.device_given l.device_line l.alias_given
        l.alias_line)

-- What the switch accepts has a shape.
is_shape_valid-Shape :
    (r : Request) {c : CommandType}
    → Case c
    → is_shape_valid c r ≡ true
    → Shape c r.target r.payload
unfolding is_shape_valid
is_shape_valid-Shape r (for_plain k) h = plain-Shape k r.target r.payload (sym (plain_case k r) ∙ h)
is_shape_valid-Shape r (for_connection k) h =
    connection-Shape k r.target r.payload (sym (connection_case k r) ∙ h)
is_shape_valid-Shape r (for_naming k) h =
    naming-Shape k r.target r.payload (sym (naming_case k r) ∙ h)
is_shape_valid-Shape r for_alias h = alias-Shape r.target r.payload h
is_shape_valid-Shape r for_none h = absurd (cc)

not_empty : (w : WString) → w ≢ [] → is_empty w ≡ false
not_empty [] h = absurd (h refl)
not_empty (x ∷ w) h = refl

-- What has a shape is accepted.
Shape-is_shape_valid :
    (r : Request) {c : CommandType} {t : TargetKind} {w : WString}
    → Shape c t w
    → r.target ≡ t
    → r.payload ≡ w
    → is_shape_valid c r ≡ true
unfolding is_shape_valid
Shape-is_shape_valid r (plain k) et ew = plain_case k r ∙ rw (et, ew) refl
Shape-is_shape_valid r {w = w} (aimed k e n) et ew =
    connection_case k r ∙ rw (et, ew, e, not_empty w n) refl
Shape-is_shape_valid r (remembered k e) et ew = connection_case k r ∙ rw (et, ew, e) (ground arith)
Shape-is_shape_valid r {w = w} (named k e n) et ew =
    naming_case k r ∙ rw (et, ew, e, not_empty w n) refl
Shape-is_shape_valid r (aliased v u e nv lv nu lu) et ew =
    rw (et, ew, e) (TwoLines-is_alias_payload v u nv lv nu lu)

pub known_command :
    (c : CommandType) (r : Request)
    → is_shape_valid c r ≡ true
    → is_known_command (command_number c) ≡ true
unfolding is_shape_valid
known_command unknown r h = absurd (cc)
known_command _ r h = refl

pub known_target : (t : TargetKind) → is_known_target (target_number t) ≡ true
known_target no_target = refl
known_target _ = refl

passed :
    (a b c d e f x : Bool)
    → (if a || not b || not c || d || e || f then false else x) ≡ true
    → (a ≡ false) × (d ≡ false) × (e ≡ false) × (f ≡ false) × (x ≡ true)
passed a b c d e f x h = (ground arith, ground arith, ground arith, ground arith, ground arith)

passes :
    (a b c d e f x : Bool)
    → a ≡ false
    → b ≡ true
    → c ≡ true
    → d ≡ false
    → e ≡ false
    → f ≡ false
    → x ≡ true
    → (if a || not b || not c || d || e || f then false else x) ≡ true
passes a b c d e f x ha hb hc hd he hf hx = ground arith

pub command_is_known :
    (r : Request) → is_request_valid r ≡ true → is_known_command (command_number r.command) ≡ true
unfolding is_request_valid
command_is_known r v = second _ (is_known_command (command_number r.command)) _ _ _ _ _ v
  where
    second :
        (a b c d e f x : Bool)
        → (if a || not b || not c || d || e || f then false else x) ≡ true
        → b ≡ true
    second a b c d e f x h = ground arith

-- IsRequestValid accepts exactly the requests with a correlation identifier, no unknown flag, at most
-- 32768 units of payload, none of them 0, and one of the shapes of the grammar.
pub is_request_valid_iff :
    (r : Request)
    → (is_request_valid r ≡ true) ↔ (
        (is_zero r.correlation_id ≡ false)
        × (r.flags ≤ 3)
        × (length r.payload ≤ 32768)
        × (contains_unit 0 r.payload ≡ false)
        × Shape r.command r.target r.payload)
unfolding is_request_valid
is_request_valid_iff r = (
  λ h.
      let (a, d, e, f, x) =
        passed (is_zero r.correlation_id) (is_known_command (command_number r.command))
          (is_known_target (target_number r.target)) (not (unknown_flags r.flags == 0))
          (ltb (max_payload_bytes / 2) (length r.payload)) (contains_unit 0 r.payload) _ h in
      (a, ground arith, ground arith, f, is_shape_valid-Shape r (case_of r.command) x),
  λ (a, d, e, f, x).
      let ok = Shape-is_shape_valid r x refl refl in
      passes _ _ _ _ _ _ _ a (known_command r.command r ok) (known_target r.target) (ground arith)
        (ground arith) f ok,
)
