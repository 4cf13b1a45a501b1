-- ===== src/Websocket/Coupling.antt =====
-- What a connection lists (`subscribed_channels` of src/websocket/connection.rs) and what the adapter
-- has of it (src/adapter/namespace.rs), and how both change.
pub mod Subscribing
pub mod Messages
use rushsocket.Base.{
  ◌∙◌, ap, arith, str_eq_refl, str_eq_refl, false, arith, Str, str_eq, Bool, not, ◌&&◌, ◌||◌, ◌≡◌,
  ◌≢◌, ℕ, List, ◌==◌, if◌then◌else◌,
}
use rushsocket.Base.Sets
use rushsocket.Websocket.Connection.{WsConnection, is_subscribed}
use rushsocket.Adapter.Effects.{in_channel}
use rushsocket.Adapter.Effects.Channels.{own}
use rushsocket.State.{AppState, at}
use rushsocket.State.Listed.{listed}

pub data Change : Type 0 where
  same : Change
  entered left : Str → Change

abbrev pub new_list : Change → List Str → List Str
new_list same l = l
new_list (entered ch) l = Sets.insert ch l
new_list (left ch) l = Sets.remove ch l

-- The new flag of channel `c`, by whether the socket is the client's own and the old flag.
abbrev pub new_flag : Change → Str → Bool → Bool → Bool
new_flag same c mine b = b
new_flag (entered ch) c mine b = (mine && str_eq ch c) || b
new_flag (left ch) c mine b = not (mine && str_eq ch c) && b

-- The change of the client's own list, and the same change of its subscriptions in the adapter.
pub record Coupled (conn : WsConnection) (change : Change) (st st' : AppState) : Type 0 where
  pub lists :
      (q : ℕ)
      → listed q st' ≡ (if conn.address == q then new_list change (listed q st) else listed q st)
  pub channels :
      (app_id s c : Str)
      → in_channel app_id s c st'.adapter
        ≡ new_flag change c
            (own conn.app.id conn.socket_id app_id s)
            (in_channel app_id s c st.adapter)

-- A connection lists exactly the channels that the adapter has its socket in.
abbrev pub Agrees : WsConnection → AppState → Type 0
Agrees conn st =
    (c : Str) → is_subscribed c (at conn st) ≡ in_channel conn.app.id conn.socket_id c st.adapter

-- An agreement outlives a coupled change of the connection itself.
pub Agrees-own :
    (conn : WsConnection) (change : Change) (st st' : AppState)
    → Coupled conn change st st'
    → Agrees conn st
    → Agrees conn st'
Agrees-own conn same st st' k h c =
    ground (arith, k.lists conn.address, k.channels conn.app.id conn.socket_id c, h c)
Agrees-own conn (entered ch) st st' k h c = ground (
  arith,
  k.lists conn.address,
  k.channels conn.app.id conn.socket_id c,
  h c,
  str_eq_refl conn.app.id,
  str_eq_refl conn.socket_id,
  Sets.contains-insert ch c (listed conn.address st),
)
Agrees-own conn (left ch) st st' k h c = ground (
  arith,
  k.lists conn.address,
  k.channels conn.app.id conn.socket_id c,
  h c,
  str_eq_refl conn.app.id,
  str_eq_refl conn.socket_id,
  Sets.contains-remove ch c (listed conn.address st),
)

-- And a coupled change of another connection.
pub Agrees-other :
    (conn other : WsConnection) (change : Change) (st st' : AppState)
    → conn.address ≢ other.address
    → own conn.app.id conn.socket_id other.app.id other.socket_id ≡ false
    → Coupled conn change st st'
    → Agrees other st
    → Agrees other st'
Agrees-other conn other same st st' apart o k h c =
    ground (arith, k.lists other.address, k.channels other.app.id other.socket_id c, h c)
Agrees-other conn other (entered ch) st st' apart o k h c =
    ground (arith, k.lists other.address, k.channels other.app.id other.socket_id c, h c)
Agrees-other conn other (left ch) st st' apart o k h c =
    ground (arith, k.lists other.address, k.channels other.app.id other.socket_id c, h c)

-- A quiet change before another.
pub Coupled-after_quiet :
    (conn : WsConnection) (change : Change) (st mid st' : AppState)
    → Coupled conn same st mid
    → Coupled conn change mid st'
    → Coupled conn change st st'
Coupled-after_quiet conn change st mid st' k l = record {
  lists =
      λ q. l.lists q ∙ ap (λ t. if conn.address == q then new_list change t else t) (quiet_list q);
  channels = λ app_id s c.
      l.channels app_id s c
      ∙ ap (new_flag change c (own conn.app.id conn.socket_id app_id s)) (k.channels app_id s c);
}
  where
    quiet_list : (q : ℕ) → listed q mid ≡ listed q st
    quiet_list q = ground (arith, k.lists q)

-- Some change, and its coupling.
abbrev pub Moves : WsConnection → AppState → AppState → Type 0
Moves conn st st' = (change : Change) × Coupled conn change st st'

-- Nothing changes.
pub Coupled-same :
    (conn : WsConnection) (st st' : AppState)
    → ((q : ℕ) → listed q st' ≡ listed q st)
    → ((app_id s c : Str) → in_channel app_id s c st'.adapter ≡ in_channel app_id s c st.adapter)
    → Coupled conn same st st'
Coupled-same conn st st' l k = record { lists = λ q. ground (arith, l q); channels = k }
