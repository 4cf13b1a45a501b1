-- ===== src/Websocket/Events/Payload.antt =====
-- `extract_data`, of which src/websocket/events/{subscribe,unsubscribe,signin}.rs each have a copy,
-- and the size estimate of src/websocket/events/client_event.rs.
use rushsocket.Base.{
  Str, bytes, Option, none, some, ℕ, ◌+◌, ◌-◌, ltb, length, show, if◌then◌else◌, ◌>>=◌, ◌++◌, true,
  false,
}
use rushsocket.Externals.{Externals, ClientMessage}
use rushsocket.Protocol.Json.{
  Json, Items, Fields, Number, null, bool, number, string, array, object, nil, item, end, field,
  pos_int, neg_int, float, as_object, as_str, get_field,
}

unfoldable pub extract_data : Externals → ClientMessage → Option Fields
extract_data ext msg = elim (as_object msg.payload) [
  | some obj ↦ some obj
  | none ↦ elim (as_str msg.payload) [ some s ↦ do v ← ext.parse s; as_object v | none ↦ none ]
]

-- `data.get(key).and_then(|v| v.as_str())`
unfoldable pub text_field : Str → Fields → Option Str
text_field key obj = do v ← get_field key obj; as_str v

-- `Number::to_string`
abbrev number_text : Number → Str
number_text (pos_int n) = show n
number_text (neg_int n) = bytes "-" ++ show (n + 1)
number_text (float text) = text

-- The commas between `n` parts.
abbrev pub commas : ℕ → ℕ
commas n = if ltb 1 n then n - 1 else 0

abbrev pub count_items : Items → ℕ
count_items nil = 0
count_items (item v rest) = 1 + count_items rest

abbrev pub count_fields : Fields → ℕ
count_fields end = 0
count_fields (field k v rest) = 1 + count_fields rest

unfoldable mutual
  pub estimate_json_size : Json → ℕ
  estimate_json_size null = 4
  estimate_json_size (bool true) = 4
  estimate_json_size (bool false) = 5
  estimate_json_size (number n) = length (number_text n)
  estimate_json_size (string s) = length s + 2
  estimate_json_size (array items) = 2 + sum_items items + commas (count_items items)
  estimate_json_size (object fields) = 2 + sum_fields fields + commas (count_fields fields)

  pub sum_items : Items → ℕ
  sum_items nil = 0
  sum_items (item v rest) = estimate_json_size v + sum_items rest

  pub sum_fields : Fields → ℕ
  sum_fields end = 0
  sum_fields (field k v rest) = length k + 2 + 1 + estimate_json_size v + sum_fields rest
