-- ===== src/Settings/Codec/Json.antt =====
-- JSON values as AudioPlaybackConnector2/src/core/SettingsCodec.cpp reads and builds them, and the
-- library that parses and prints them.
use audio_playback_connector.Prelude.{
  ◌*◌, ℕ, suc, Bool, true, false, not, ◌&&◌, Option, none, some, List, [], ◌∷◌, ltb, leb, ◌==◌,
  if◌then◌else◌, length, ◌>>=◌, ◌>>◌, require,
}
use audio_playback_connector.Prelude.Int.{ℤ}
use audio_playback_connector.Text.{same, contains, is_empty}
use audio_playback_connector.Text.Utf16.{WString}

-- The bytes of a file, or of a string in UTF-8.
abbrev pub Bytes : Type 0
Bytes = List ℕ

-- `nlohmann::json`. Its two kinds of integers, with and without a sign, are one number here;
-- a floating-point number is kept as it is written.
mutual
  pub data Json : Type 0 where
    null : Json
    boolean : Bool → Json
    number : ℤ → Json
    decimal : Bytes → Json
    text : Bytes → Json
    array : Items → Json
    object : Fields → Json

  pub data Items : Type 0 where
    no_items : Items
    item : Json → Items → Items

  -- In the order of the keys, as the `std::map` of an object holds them; as the parser meets them, in the
  -- document's order.
  pub data Fields : Type 0 where
    no_fields : Fields
    field : Bytes → Json → Fields → Fields

-- What `Json::parse` meets, in the document's order and without the callback; `dump`; and the conversions `winrt::to_hstring` and
-- `winrt::to_string` between UTF-8 and UTF-16.
pub record JsonLibrary : Type 0 where
  pub parse : Bytes → Option Json
  pub dump : Json → Bytes
  pub to_hstring : Bytes → WString
  pub to_string : WString → Bytes

-- `object.find(key)`.
unfoldable pub find : Bytes → Fields → Option Json
find k no_fields = none
find k (field k' v fs) = let rest = find k fs in if same k k' then some v else rest

-- The order of `std::string`.
unfoldable pub before : Bytes → Bytes → Bool
before v [] = false
before [] (d ∷ w) = true
before (c ∷ v) (d ∷ w) = let rest = before v w in if c == d then rest else ltb c d

-- `object.erase(key)`.
unfoldable pub erase : Bytes → Fields → Fields
erase k no_fields = no_fields
erase k (field k' v fs) = let rest = erase k fs in if same k k' then rest else field k' v rest

-- `object[key] = value`: the key stands once, in front of the first greater one.
unfoldable pub set : Bytes → Json → Fields → Fields
set k v no_fields = field k v no_fields
set k v (field k' v' fs) =
    let rest = set k v fs in
    if same k k'
    then field k v fs
    else if before k k'
    then field k v (field k' v' (erase k fs))
    else field k' v' rest

unfoldable pub size : Items → ℕ
size no_items = 0
size (item j is) = suc (size is)

abbrev pub max_depth : ℕ
max_depth = 16

abbrev pub max_settings_file_bytes : ℕ
max_settings_file_bytes = 4 * 1024 * 1024

-- The callback: no value and no key deeper than 16, and no key twice in an object.
unfoldable mutual
  pub is_checked : ℕ → Json → Bool
  is_checked d (array is) = leb d max_depth && are_checked (suc d) is
  is_checked d (object fs) = leb d max_depth && fields_checked (suc d) [] fs
  is_checked d null = leb d max_depth
  is_checked d (boolean b) = leb d max_depth
  is_checked d (number z) = leb d max_depth
  is_checked d (decimal w) = leb d max_depth
  is_checked d (text w) = leb d max_depth

  pub are_checked : ℕ → Items → Bool
  are_checked d no_items = true
  are_checked d (item j is) = is_checked d j && are_checked d is

  pub fields_checked : ℕ → List Bytes → Fields → Bool
  fields_checked d seen no_fields = true
  fields_checked d seen (field k v fs) =
      leb d max_depth && not (contains seen k) && is_checked d v && fields_checked d (k ∷ seen) fs

-- The value that is parsed: the fields of every object in the order of the keys.
unfoldable mutual
  pub sorted : Json → Json
  sorted (array is) = array (sorted_items is)
  sorted (object fs) = object (sorted_fields fs)
  sorted null = null
  sorted (boolean b) = boolean b
  sorted (number z) = number z
  sorted (decimal w) = decimal w
  sorted (text w) = text w

  pub sorted_items : Items → Items
  sorted_items no_items = no_items
  sorted_items (item j is) = item (sorted j) (sorted_items is)

  pub sorted_fields : Fields → Fields
  sorted_fields no_fields = no_fields
  sorted_fields (field k v fs) = set k (sorted v) (sorted_fields fs)

-- `ParseJson`.
unfoldable pub parse_json : JsonLibrary → Bytes → Option Json
parse_json l bytes = do
  require (not (is_empty bytes) && leb (length bytes) max_settings_file_bytes)
  json ← l.parse bytes
  require (is_checked 0 json)
  some (sorted json)
