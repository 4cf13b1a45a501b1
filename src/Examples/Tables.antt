-- ===== src/Examples/Tables.antt =====
-- The namespace and the adapter (src/adapter) on a short history of two clients.
use rushsocket.Base.{
  str_eq_iff, bytes, str_eq, none, some, true, false, refl, not, ◌≤◌, ℕ, ◌&&◌, ◌≡◌, ◌↔◌, [], ◌∷◌,
  List, arith,
}
use rushsocket.Base.Sets
use rushsocket.Base.Assoc
use rushsocket.Protocol.Json.{null}
use rushsocket.Adapter.Namespace
use rushsocket.Adapter.Namespace.{members, join}
use rushsocket.Websocket.Connection
use rushsocket.Examples.{app, alice, bob, news, room, ext, history, table}
use rushsocket.Adapter.Namespace.{
  add_socket, Namespace, add_to_channel, remove_from_channel, remove_socket,
  try_add_presence_member, remove_presence_member, get_presence_user_count, send_to_channel,
  is_excepted,
}
use rushsocket.Adapter.Namespace.Membership.{subscribed, IsMirrored, HasSubscriber}
use rushsocket.Adapter.Namespace.Disconnect.{remove_socket-vacated}
use rushsocket.Adapter.Namespace.Histories.{run, apply, adds_socket, run-IsMirrored, joins}
use rushsocket.Adapter.Namespace.Presence.{
  is_member, try_add_presence_member-bounded, remove_presence_member-gone,
}
use rushsocket.Adapter.Namespace.Delivery.{Separate, sent_if, send_to_channel_once}
use rushsocket.Adapter.Namespace.Admission
use rushsocket.Adapter.Namespace.Admission.{Act, slots, table_size, run_bounded, starting, advances}
use rushsocket.Adapter.Local.Apps.{apply_local, apply_local-Acts, Acts}

run-IsMirrored_example : IsMirrored table
run-IsMirrored_example = run-IsMirrored history

table-IsMirrored : IsMirrored table
table-IsMirrored = run-IsMirrored history

remove_socket-vacated_example :
    (Sets.contains news (remove_socket bob.socket_id table).1 ≡ true)
    ↔ (HasSubscriber news table × (¬ HasSubscriber news (remove_socket bob.socket_id table).0))
remove_socket-vacated_example = remove_socket-vacated bob.socket_id table table-IsMirrored news

count_is : get_presence_user_count room table ≡ 1
unfolding get_presence_user_count run Assoc.lookup apply try_add_presence_member members
    add_to_channel add_socket Assoc.insert str_eq join
count_is = refl

one_member : get_presence_user_count room table ≤ 1
one_member = ground (arith, count_is)

try_add_presence_member-bounded_example :
    get_presence_user_count room
      (try_add_presence_member room alice.socket_id (bytes "alice") null 1 table).0
    ≤ 1
try_add_presence_member-bounded_example =
    try_add_presence_member-bounded room alice.socket_id (bytes "alice") null 1 table room
      one_member

remove_presence_member-gone_example :
    ((remove_presence_member room bob.socket_id (bytes "bob") table).1 ≡ true) ↔ (
      (is_member (bytes "bob") room table ≡ true)
      × (is_member
            (bytes "bob")
            room
            (remove_presence_member room bob.socket_id (bytes "bob") table).0
          ≡ false))
remove_presence_member-gone_example =
    remove_presence_member-gone room bob.socket_id (bytes "bob") table

-- Alice alone.
abbrev alone : Namespace
alone = run (adds_socket alice ∷ joins alice.socket_id news ∷ []) Namespace.new

alone-Separate : Separate alone.sockets
unfolding run apply add_socket Assoc.insert Assoc.lookup add_to_channel
alone-Separate j k c d e f same =
    ground (arith, str_eq_iff alice.socket_id j, str_eq_iff alice.socket_id k)

alone_at : Assoc.lookup alice.socket_id alone.sockets ≡ some alice
unfolding run apply add_socket Assoc.insert Assoc.lookup add_to_channel str_eq
alone_at = refl

send_to_channel_once_example :
    send_to_channel ext news (bytes "{}") none alone (λ p. Connection.new) alice.address
    ≡ sent_if ext
        (subscribed alice.socket_id news alone && not (is_excepted none alice.socket_id))
        (bytes "{}")
        Connection.new
send_to_channel_once_example =
    send_to_channel_once ext news (bytes "{}") none alone (λ p. Connection.new) alice.socket_id
      alice (run-IsMirrored (adds_socket alice ∷ joins alice.socket_id news ∷ [])) alone-Separate
      alone_at

-- Two tasks for one slot: both load the counter, and both try to take it.
abbrev race : List (ℕ × Act)
race = (0, advances) ∷ (1, advances) ∷ (0, advances) ∷ (1, advances) ∷ (0, advances) ∷ []

abbrev idle : Admission.Shared
idle = record { count = 0; tasks = starting ∷ starting ∷ [] }

run_bounded_example :
    ((Admission.run 1 race idle).count ≡ slots (Admission.run 1 race idle).tasks)
    × ((Admission.run 1 race idle).count ≤ 1)
    × (table_size (Admission.run 1 race idle).tasks ≤ 1)
run_bounded_example = run_bounded 1 race idle (ground arith) refl (ground arith)

apply_local-Acts_example :
    Acts app.id (adds_socket alice) [] (apply_local app.id (adds_socket alice) [])
apply_local-Acts_example = apply_local-Acts app.id (adds_socket alice) []
