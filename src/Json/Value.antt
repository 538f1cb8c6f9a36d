-- ===== src/Json/Value.antt =====
-- `JsonValue` of include/nexus/mcp/json_rpc.h. A double is the number of its 64 bits; a string is its
-- bytes. Members and elements are lists of their own, since a value holds lists of values.
use nexus_rpc.Common.{ℕ, Bool, true, false, Bytes, [], Option, none, some}
use nexus_rpc.Common.{if◌then◌else◌}
use nexus_rpc.Common.ByteMap.{bytes_eq}

pub data ℤ : Type 0 where
  pos : ℕ → ℤ
  negsuc : ℕ → ℤ

mutual
  pub data JsonValue : Type 0 where
    null : JsonValue
    bool : Bool → JsonValue
    integer : ℤ → JsonValue
    double : ℕ → JsonValue
    string : Bytes → JsonValue
    object : Members → JsonValue
    array : Elements → JsonValue

  pub data Members : Type 0 where
    no_members : Members
    member : Bytes → JsonValue → Members → Members

  pub data Elements : Type 0 where
    no_elements : Elements
    element : JsonValue → Elements → Elements

-- The C library's conversions of doubles: `strtod`, with the bits and the number of characters it has
-- read if it has read some and set no error, and `snprintf` with the format `%.17g`.
pub record Doubles : Type 0 where
  pub strtod : Bytes → Option (ℕ × ℕ)
  pub print_double : ℕ → Bytes

-- The first member of that name.
unfoldable pub find_member : Bytes → Members → Option JsonValue
find_member key no_members = none
find_member key (member k v ms) =
    let later = find_member key ms in if bytes_eq k key then some v else later

-- `set`: the first member of that name is overwritten, or one is put behind the others.
unfoldable pub set_member : Bytes → JsonValue → Members → Members
set_member key value no_members = member key value no_members
set_member key value (member k v ms) =
    let later = set_member key value ms in
    if bytes_eq k key then member k value ms else member k v later

-- `operator[]` after `hasMember`: the member of an object, if there is one.
unfoldable pub get : Bytes → JsonValue → Option JsonValue
get key (object ms) = find_member key ms
get key _ = none

abbrev pub is_object : JsonValue → Bool
is_object (object ms) = true
is_object _ = false

abbrev pub is_array : JsonValue → Bool
is_array (array es) = true
is_array _ = false

-- `toString`: a value that is not a string holds the empty one.
abbrev pub to_text : JsonValue → Bytes
to_text (string s) = s
to_text _ = []
