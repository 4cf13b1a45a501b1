-- ===== src/Adapter/Namespace.antt =====
-- src/adapter/namespace.rs: the sockets, the channels, the presence members and the users of an app.
-- Each operation is one step here.
pub mod Membership
pub mod Disconnect
pub mod Invariant
pub mod Histories
pub mod Members
pub mod Presence
pub mod Delivery
pub mod Admission
use rushsocket.Base.{
  Str, str_eq, Bool, true, false, not, ◌&&◌, Option, none, some, ℕ, ◌+◌, ◌-◌, ◌^◌, ◌%◌, List, [],
  ◌∷◌, ◌++◌, if◌then◌else◌, is_some, is_empty, length, get_or, leb,
}
use rushsocket.Base.Assoc
use rushsocket.Base.Assoc.{Assoc}
use rushsocket.Base.Sets
use rushsocket.Base.Int.{ℤ, is_negative, to_nat}
use rushsocket.Externals.{Externals}
use rushsocket.Protocol.Json.{Json}
use rushsocket.Websocket.Connection.{WsConnection, Heap, write, send_raw}

-- user_id -> (user_info, socket ids)
abbrev pub Members : Type 0
Members = Assoc (Json × List Str)

pub record Namespace : Type 0 where
  pub sockets : Assoc WsConnection
  pub connection_count : ℕ
  pub channels : Assoc (List Str)
  pub socket_channels : Assoc (List Str)
  pub presence : Assoc Members
  pub users : Assoc (List Str)

abbrev pub new : Namespace
new = record {
  sockets = [];
  connection_count = 0;
  channels = [];
  socket_channels = [];
  presence = [];
  users = [];
}

-- `fetch_add` and `fetch_sub` on an `AtomicUsize` wrap around.
abbrev pub fetch_add : ℕ → ℕ
fetch_add n = (n + 1) % 2 ^ 64

abbrev pub fetch_sub : ℕ → ℕ
fetch_sub n = (n + 2 ^ 64 - 1) % 2 ^ 64

unfoldable pub add_socket : WsConnection → Namespace → Namespace
add_socket conn ns = record ns {
  sockets = Assoc.insert conn.socket_id conn ns.sockets;
  connection_count = fetch_add ns.connection_count;
}

-- Without other threads the compare-and-exchange takes place in its first round.
unfoldable pub try_add_socket : WsConnection → ℤ → Namespace → Namespace × Bool
unfolding add_socket
try_add_socket conn limit ns =
    if is_negative limit
    then (add_socket conn ns, true)
    else if leb (to_nat limit) ns.connection_count
    then (ns, false)
    else (
      record ns {
        sockets = Assoc.insert conn.socket_id conn ns.sockets;
        connection_count = ns.connection_count + 1;
      },
      true,
    )

-- One round of the loop of `remove_socket`, on the channels and the list of vacated ones.
unfoldable pub leave : Str → Str → Assoc (List Str) × List Str → Assoc (List Str) × List Str
leave socket_id ch (channels, vacated) = elim (Assoc.lookup ch channels) [
  | none ↦ (channels, vacated)
  | some sockets ↦
      let left = Sets.remove socket_id sockets in
      (
        if is_empty left then Assoc.remove ch channels else Assoc.insert ch left channels,
        if is_empty left then vacated ++ ch ∷ [] else vacated,
      )
]

unfoldable pub leave_all :
    Str → List Str → Assoc (List Str) × List Str → Assoc (List Str) × List Str
leave_all socket_id [] s = s
leave_all socket_id (ch ∷ rest) s = leave_all socket_id rest (leave socket_id ch s)

unfoldable pub remove_socket : Str → Namespace → Namespace × List Str
remove_socket socket_id ns =
    let known = is_some (Assoc.lookup socket_id ns.sockets) in
    let left = leave_all socket_id (Assoc.entry socket_id ns.socket_channels) (ns.channels, []) in
    (
      record ns {
        sockets = Assoc.remove socket_id ns.sockets;
        connection_count = if known then fetch_sub ns.connection_count else ns.connection_count;
        socket_channels = Assoc.remove socket_id ns.socket_channels;
        channels = left.0;
      },
      left.1,
    )

unfoldable pub shared_id : Str → Namespace → Str
shared_id socket_id ns = elim (Assoc.lookup socket_id ns.sockets) [
  | some conn ↦ conn.socket_id
  | none ↦ socket_id
]

unfoldable pub add_to_channel : Str → Str → Namespace → Namespace × Bool
add_to_channel socket_id channel ns =
    let sid = shared_id socket_id ns in
    let sockets = Assoc.entry channel ns.channels in
    let chans = Assoc.entry sid ns.socket_channels in
    (
      record ns {
        channels = Assoc.insert channel (Sets.insert sid sockets) ns.channels;
        socket_channels = Assoc.insert sid (Sets.insert channel chans) ns.socket_channels;
      },
      is_empty sockets,
    )

unfoldable pub unindex : Str → Str → Assoc (List Str) → Assoc (List Str)
unindex socket_id channel index = elim (Assoc.lookup socket_id index) [
  | none ↦ index
  | some chans ↦ Assoc.insert socket_id (Sets.remove channel chans) index
]

unfoldable pub remove_from_channel : Str → Str → Namespace → Namespace × Bool
remove_from_channel socket_id channel ns = elim (Assoc.lookup channel ns.channels) [
  | none ↦ (record ns { socket_channels = unindex socket_id channel ns.socket_channels }, false)
  | some sockets ↦
      let left = Sets.remove socket_id sockets in
      (
        record ns {
          channels =
              if is_empty left
              then Assoc.remove channel ns.channels
              else Assoc.insert channel left ns.channels;
          socket_channels = unindex socket_id channel ns.socket_channels;
        },
        is_empty left,
      )
]

abbrev pub is_excepted : Option Str → Str → Bool
is_excepted none sid = false
is_excepted (some x) sid = str_eq sid x

module _ (ext : Externals) where
  -- One round of the loop of `send_to_channel`. Of the result of `send_raw` only a log line depends.
  unfoldable pub send_one : Assoc WsConnection → Option Str → Str → Str → Heap → Heap
  send_one sockets excepting_id message sid heap =
      if is_excepted excepting_id sid then heap else elim (Assoc.lookup sid sockets) [
        | none ↦ heap
        | some conn ↦ write conn.address (send_raw ext message (heap conn.address)).0 heap
      ]

  unfoldable pub send_each : Assoc WsConnection → Option Str → Str → List Str → Heap → Heap
  send_each sockets excepting_id message [] heap = heap
  send_each sockets excepting_id message (sid ∷ rest) heap =
      send_each sockets excepting_id message rest (send_one sockets excepting_id message sid heap)

  unfoldable pub send_to_channel : Str → Str → Option Str → Namespace → Heap → Heap
  send_to_channel channel message excepting_id ns heap = elim (Assoc.lookup channel ns.channels) [
    | none ↦ heap
    | some socket_ids ↦ send_each ns.sockets excepting_id message socket_ids heap
  ]

abbrev pub get_channels : Namespace → List Str
get_channels ns = Assoc.keys ns.channels

unfoldable pub get_channel_socket_count : Str → Namespace → ℕ
get_channel_socket_count channel ns = elim (Assoc.lookup channel ns.channels) [
  | none ↦ 0
  | some s ↦ length s
]

abbrev pub infos : Members → Assoc Json
infos [] = []
infos ((uid, entry) ∷ rest) = (uid, entry.0) ∷ infos rest

unfoldable pub get_presence_members : Str → Namespace → Assoc Json
get_presence_members channel ns = elim (Assoc.lookup channel ns.presence) [
  | none ↦ []
  | some members ↦ infos members
]

-- The entry of a presence channel, `entry(channel).or_default()` as far as it is read.
unfoldable pub members : Str → Namespace → Members
members channel ns = get_or (Assoc.lookup channel ns.presence) []

-- `and_modify` of the user's entry, or a new entry with this one socket.
unfoldable pub join : Str → Str → Json → Members → Members
join socket_id user_id user_info members = elim (Assoc.lookup user_id members) [
  | some (info, sockets) ↦ Assoc.insert user_id (info, Sets.insert socket_id sockets) members
  | none ↦ Assoc.insert user_id (user_info, socket_id ∷ []) members
]

unfoldable pub add_presence_member : Str → Str → Str → Json → Namespace → Namespace × Bool
add_presence_member channel socket_id user_id user_info ns =
    let before = members channel ns in
    (
      record ns {
        presence = Assoc.insert channel (join socket_id user_id user_info before) ns.presence;
      },
      not (Assoc.contains_key user_id before),
    )

-- `none` is `Err(())`: the channel is full. The entry that `or_default` made stays in either case.
unfoldable pub try_add_presence_member :
    Str → Str → Str → Json → ℕ → Namespace → Namespace × Option (Bool × Assoc Json)
try_add_presence_member channel socket_id user_id user_info max_members ns =
    let before = members channel ns in
    let already_present = Assoc.contains_key user_id before in
    if not already_present && leb max_members (length before)
    then (record ns { presence = Assoc.insert channel before ns.presence }, none)
    else let joined = join socket_id user_id user_info before in
      (
        record ns { presence = Assoc.insert channel joined ns.presence },
        some (not already_present, infos joined),
      )

-- What is left of a channel's members, and whether the user is gone.
unfoldable pub part : Str → Str → Members → Members × Bool
part socket_id user_id members = elim (Assoc.lookup user_id members) [
  | none ↦ (members, false)
  | some (info, sockets) ↦
      let left = Sets.remove socket_id sockets in
      if is_empty left
      then (Assoc.remove user_id members, true)
      else (Assoc.insert user_id (info, left) members, false)
]

unfoldable pub remove_presence_member : Str → Str → Str → Namespace → Namespace × Bool
remove_presence_member channel socket_id user_id ns = elim (Assoc.lookup channel ns.presence) [
  | none ↦ (ns, false)
  | some members ↦
      let parted = part socket_id user_id members in
      (
        record ns {
          presence =
              if is_empty parted.0
              then Assoc.remove channel ns.presence
              else Assoc.insert channel parted.0 ns.presence;
        },
        parted.1,
      )
]

unfoldable pub get_presence_user_count : Str → Namespace → ℕ
get_presence_user_count channel ns = elim (Assoc.lookup channel ns.presence) [
  | none ↦ 0
  | some m ↦ length m
]

unfoldable pub add_user : Str → Str → Namespace → Namespace
add_user user_id socket_id ns =
    let sockets = Assoc.entry user_id ns.users in
    record ns { users = Assoc.insert user_id (Sets.insert socket_id sockets) ns.users }

unfoldable pub remove_user : Str → Str → Namespace → Namespace
remove_user user_id socket_id ns = elim (Assoc.lookup user_id ns.users) [
  | none ↦ ns
  | some sockets ↦
      let left = Sets.remove socket_id sockets in
      record ns {
        users =
            if is_empty left
            then Assoc.remove user_id ns.users
            else Assoc.insert user_id left ns.users;
      }
]

unfoldable pub handles : Assoc WsConnection → List Str → List WsConnection
handles sockets [] = []
handles sockets (sid ∷ rest) = elim (Assoc.lookup sid sockets) [
  | none ↦ handles sockets rest
  | some conn ↦ conn ∷ handles sockets rest
]

unfoldable pub get_sockets_for_user : Str → Namespace → List WsConnection
unfolding handles
get_sockets_for_user user_id ns = elim (Assoc.lookup user_id ns.users) [
  | none ↦ []
  | some socket_ids ↦ handles ns.sockets socket_ids
]
