-- ===== src/Protocol/Json.antt =====
-- The values of serde_json (`serde_json::Value`) as the program takes them apart.
use rushsocket.Base.{
  ◌+◌, ℕ, Str, bytes, str_eq, show, Bool, Option, none, some, ◌++◌, if◌then◌else◌, ◌^◌, ltb,
}

-- A number is an unsigned or a negative integer, or a float with the text that it prints as.
-- `neg_int n` is -(n + 1).
pub data Number : Type 0 where
  pos_int neg_int : ℕ → Number
  float : Str → Number

mutual
  pub data Json : Type 0 where
    null : Json
    bool : Bool → Json
    number : Number → Json
    string : Str → Json
    array : Items → Json
    object : Fields → Json

  pub data Items : Type 0 where
    nil : Items
    item : Json → Items → Items

  pub data Fields : Type 0 where
    end : Fields
    field : Str → Json → Fields → Fields

abbrev pub as_object : Json → Option Fields
as_object (object fields) = some fields
as_object _ = none

abbrev pub as_str : Json → Option Str
as_str (string s) = some s
as_str _ = none

-- `as_i64().map(|n| n.to_string())`
unfoldable pub int_text : Json → Option Str
int_text (number (pos_int n)) = if ltb n (2 ^ 63) then some (show n) else none
int_text (number (neg_int n)) = if ltb n (2 ^ 63) then some (bytes "-" ++ show (n + 1)) else none
int_text _ = none

-- `get` on a map
unfoldable pub get_field : Str → Fields → Option Json
get_field k end = none
get_field k (field j v rest) = if str_eq j k then some v else get_field k rest

-- `get` with a text key on a value: none unless the value is an object.
abbrev pub get : Str → Json → Option Json
get k (object fields) = get_field k fields
get k _ = none
