-- ===== src/Examples/Nodes.antt =====
-- The adapter with Redis, the webhook worker and the counters on concrete stores and events.
use rushsocket.Base.{
  map, show, ◌≤◌, &&_iff, str_eq_iff, ap, sym, ◌∙◌, str_eq_refl, Str, bytes, str_eq, Bool, true,
  false, not, ◌&&◌, ◌||◌, ℕ, suc, ◌+◌, ◌-◌, ◌%◌, ◌==◌, Option, none, some, List, [], ◌∷◌, ◌++◌, ◌≡◌,
  ◌≢◌, refl, arith, if◌then◌else◌, ltb,
}
use rushsocket.Base.Int.{ℤ, pos, negsuc}
use rushsocket.Examples.{app, news, room, ext, table}
use rushsocket.Protocol.Json.{Json, Fields, null, number, object, pos_int, end, field}
use rushsocket.Webhook.{WebhookEvent, channel_occupied, channel_vacated}
use rushsocket.Webhook.Worker
use rushsocket.Webhook.Worker.{WebhookWorker, Signal, event, interval, closed}
use rushsocket.Webhook.Worker.Batches.{sent, run-sent}
use rushsocket.Metrics
use rushsocket.Metrics.{get_connected_for_app, range}
use rushsocket.Metrics.Balance
use rushsocket.Metrics.Balance.{
  Call, connects, disconnects, ups, downs, is_known, run-get_connected_for_app,
}
use rushsocket.Adapter.Redis.{
  RedisCommands, RedisAdapter, node_stats_key, add_presence_member, remove_presence_member,
}
use rushsocket.Websocket.Connection
use rushsocket.Adapter.Local
use rushsocket.Adapter.Redis.Peers.{Answers}
use rushsocket.Adapter.Redis.Peers.Copies.{Node, times, received, after, after_deliveries}
use rushsocket.Adapter.Redis.Occupancy.{KeyLaws, answers, answers_first}
use rushsocket.Adapter.Redis.Stats.{collect_local_stats, get_connection_count, get_channel_info}
use rushsocket.Adapter.Redis.Totals.{sum_over, IsReadable, counts-sum_over}
use rushsocket.Externals.{Externals}
use rushsocket.Adapter.Local.{LocalAdapter, ChannelInfo}
use rushsocket.Adapter.Redis.Members.{
  HashLaws, IsConsistent, Counts, members_key, sockets_key, add_presence_member-IsConsistent,
  remove_presence_member-IsConsistent,
}

-- A store by what it answers.
record Table : Type 0 where
  keys : Str → Bool
  members : Str → Str → Bool
  tallies : Str → Str → ℕ
  texts : Str → Option Str

abbrev vacant : Table
vacant = record { keys = λ k. false; members = λ k u. false; tallies = λ k u. 0; texts = λ k. none }

abbrev is_at : Str → Str → Str → Str → Bool
is_at k u j v = str_eq k j && str_eq u v

abbrev counted : ℤ → ℕ → ℕ
counted (pos n) t = t + n
counted (negsuc n) t = t - suc n

abbrev redis : RedisCommands
redis = record {
  Store = Table;
  set_nx = λ k v s. (record s { keys = λ j. str_eq k j || s.keys j }, some (not (s.keys k)));
  del = λ k s. record s {
    keys = λ j. not (str_eq k j) && s.keys j;
    members = λ j v. not (str_eq k j) && s.members j v;
    tallies = λ j v. if str_eq k j then 0 else s.tallies j v;
  };
  hincr = λ k u by s. (
    record s {
      tallies = λ j v. if is_at k u j v then counted by (s.tallies k u) else s.tallies j v;
    },
    some (pos (counted by (s.tallies k u))),
  );
  hset = λ k u x s. record s { members = λ j v. is_at k u j v || s.members j v };
  hdel = λ k u s. record s {
    members = λ j v. not (is_at k u j v) && s.members j v;
    tallies = λ j v. if is_at k u j v then 0 else s.tallies j v;
  };
  hlen = λ k s. none;
  hexists = λ k u s. some (s.members k u);
  hgetall = λ k s. none;
  mget = λ ks s. some (map s.texts ks);
}

abbrev redis_keys : KeyLaws redis
redis_keys = record {
  has = λ k s. s.keys k;
  set_nx_answer = λ k v s. refl;
  has-set_nx = λ k v j s. refl;
  has-del = λ k j s. refl;
}

-- The same field under equal names.
same_field : (k u j v : Str) (s : Table) → is_at k u j v ≡ true → s.tallies j v ≡ s.tallies k u
same_field k u j v s h =
    let e = (&&_iff (str_eq k j) (str_eq u v)).0 h in
    ap (λ x. s.tallies x v) (sym ((str_eq_iff k j).0 e.0))
    ∙ ap (s.tallies k) (sym ((str_eq_iff u v).0 e.1))

abbrev redis_hashes : HashLaws redis
redis_hashes = record {
  member = λ k u s. s.members k u;
  tally = λ k u s. s.tallies k u;
  hincr_up = λ k u s. ap (λ n. some (pos n)) (omega arith);
  tally-hincr_up = λ k u j v s. ground (arith, same_field k u j v s);
  hincr_down = λ k u n s h. ap (λ m. some (pos m)) (omega (arith, h));
  tally-hincr_down = λ k u j v n s h. ground (arith, h);
  member-hincr = λ k u j v by s h. refl;
  member-hset = λ k u x j v s. refl;
  tally-hset = λ k u x j v s h. refl;
  member-hdel = λ k u j v s. refl;
  tally-hdel = λ k u j v s. refl;
  member-del = λ k j v s. refl;
  tally-del = λ k j v s. refl;
  hlen_empty = λ k u s h. ground arith;
}

-- The keys of the two hashes of the room.
abbrev room_members : Str
room_members = members_key redis redis_hashes ext (bytes "rs") (bytes "n1") app.id room

abbrev room_sockets : Str
room_sockets = sockets_key redis redis_hashes ext (bytes "rs") (bytes "n1") app.id room

vacant-IsConsistent :
    IsConsistent redis redis_hashes ext (bytes "rs") (bytes "n1") app.id room vacant
vacant-IsConsistent u = refl

abbrev idle : RedisAdapter redis
idle = record { local = []; store = vacant }

add_presence_member-IsConsistent_example :
    (let r =
        add_presence_member redis ext
          (bytes "rs")
          (bytes "n1")
          app.id
          room
          (bytes "1.1")
          (bytes "ann")
          null
          idle in
      IsConsistent redis redis_hashes ext (bytes "rs") (bytes "n1") app.id room r.0.store
      × Counts redis redis_hashes ext
          (bytes "rs")
          (bytes "n1")
          app.id
          room
          (bytes "ann")
          (suc (vacant.tallies room_sockets (bytes "ann")))
          vacant
          r.0.store
      × (r.1 ≡ not (vacant.members room_members (bytes "ann"))))
add_presence_member-IsConsistent_example =
    add_presence_member-IsConsistent redis redis_hashes ext (bytes "rs") (bytes "n1") app.id room
      (bytes "1.1") (bytes "ann") null idle vacant-IsConsistent

-- One socket of one user.
abbrev joined : Table
joined = record vacant {
  members = λ k u. is_at room_members (bytes "ann") k u;
  tallies = λ k u. if is_at room_sockets (bytes "ann") k u then 1 else 0;
}

joined-IsConsistent :
    IsConsistent redis redis_hashes ext (bytes "rs") (bytes "n1") app.id room joined
joined-IsConsistent u = ground (arith, str_eq_refl room_members, str_eq_refl room_sockets)

one_socket : joined.tallies room_sockets (bytes "ann") ≡ 1
one_socket = ground (arith, str_eq_refl room_sockets, str_eq_refl (bytes "ann"))

abbrev inhabited : RedisAdapter redis
inhabited = record { local = []; store = joined }

remove_presence_member-IsConsistent_example :
    (let r =
        remove_presence_member redis ext
          (bytes "rs")
          (bytes "n1")
          app.id
          room
          (bytes "1.1")
          (bytes "ann")
          inhabited in
      IsConsistent redis redis_hashes ext (bytes "rs") (bytes "n1") app.id room r.0.store
      × Counts redis redis_hashes ext
          (bytes "rs")
          (bytes "n1")
          app.id
          room
          (bytes "ann")
          0
          joined
          r.0.store
      × (r.1 ≡ (0 == 0)))
remove_presence_member-IsConsistent_example =
    remove_presence_member-IsConsistent redis redis_hashes ext (bytes "rs") (bytes "n1") app.id room
      (bytes "1.1") (bytes "ann") 0 inhabited joined-IsConsistent one_socket

answers_first_example :
    answers redis redis_keys ext (bytes "rs") app.id news (bytes "n1" ∷ bytes "n2" ∷ []) vacant
    ≡ true ∷ false ∷ []
answers_first_example =
    answers_first redis redis_keys ext (bytes "rs") app.id news (bytes "n1") (bytes "n2" ∷ [])
      vacant

abbrev serialize : ℕ → List WebhookEvent → Option Str
serialize time_ms events = some (bytes "{}")

serializes : (time_ms : ℕ) (events : List WebhookEvent) → serialize time_ms events ≢ none
serializes time_ms events h = ground (arith, h)

abbrev worker : WebhookWorker
worker = record { url = bytes "http://x"; key = app.key; secret = app.secret }

abbrev signals : List Signal
signals =
    event (channel_occupied news)
    ∷ interval 5 (λ attempt. attempt == 1)
    ∷ event (channel_vacated news)
    ∷ []

run-sent_example :
    (let r = Worker.run ext serialize worker signals [] [] in sent r.1 ++ r.0)
    ≡ channel_occupied news ∷ channel_vacated news ∷ []
run-sent_example = run-sent ext serialize worker signals [] [] serializes

abbrev calls : List Call
calls = connects app.id ∷ connects app.id ∷ disconnects app.id ∷ []

run-get_connected_for_app_example :
    (get_connected_for_app app.id (Balance.run calls Metrics.new)
        + downs app.id (is_known app.id Metrics.new) calls)
      % range
    ≡ (get_connected_for_app app.id Metrics.new + ups app.id calls) % range
run-get_connected_for_app_example = run-get_connected_for_app app.id calls Metrics.new

-- The tables of another node.
abbrev remote : LocalAdapter
remote = (app.id, table) ∷ []

-- JSON text, for objects of numbers.
mutual
  print_json : Json → Str
  print_json (number (pos_int n)) = show n
  print_json (object fields) = bytes "{" ++ (print_fields fields ++ bytes "}")
  print_json _ = bytes "null"

  print_fields : Fields → Str
  print_fields end = []
  print_fields (field key value end) = bytes "\"" ++ (key ++ (bytes "\":" ++ print_json value))
  print_fields (field key value fields) =
      bytes "\""
      ++ (key ++ (bytes "\":" ++ (print_json value ++ (bytes "," ++ print_fields fields))))

abbrev remote_text : Str
remote_text = print_json (collect_local_stats remote)

-- A parser of this one text.
abbrev reader : Externals
reader = record ext {
  print = print_json;
  parse = λ text. if str_eq text remote_text then some (collect_local_stats remote) else none;
}

-- The second node has written its statistics, the third one's have expired.
abbrev alone : RedisAdapter redis
alone = record {
  local = [];
  store = record vacant {
    texts = λ key.
        if str_eq key (node_stats_key (bytes "rs") (bytes "n2")) then some remote_text else none;
  };
}

abbrev others : List Str
others = bytes "n2" ∷ bytes "n3" ∷ []

abbrev sockets_of_news : ℕ
sockets_of_news =
    sum_over (Local.get_channel_socket_count app.id news) (some [] ∷ some remote ∷ none ∷ [])

abbrev info : ChannelInfo
info = get_channel_info redis reader (bytes "rs") (bytes "n1") app.id news others alone

remote_is_read :
    reader.parse (reader.print (collect_local_stats remote)) ≡ some (collect_local_stats remote)
remote_is_read = rw (str_eq_refl remote_text) refl

counts-sum_over_example :
    (get_connection_count redis reader (bytes "rs") (bytes "n1") app.id others alone
      ≡ sum_over (Local.get_connection_count app.id) (some [] ∷ some remote ∷ none ∷ []))
    × (info.subscription_count ≡ sockets_of_news)
    × (info.occupied ≡ ltb 0 sockets_of_news)
unfolding IsReadable str_eq node_stats_key
counts-sum_over_example =
    counts-sum_over redis reader (bytes "rs") (bytes "n1") app.id news (bytes "n2")
      (bytes "n3" ∷ []) (some remote ∷ none ∷ []) alone refl (remote_is_read, tt)

-- A node with clients, for which the first command fails and both messages arrive.
abbrev node : Node
node = record {
  node_id = bytes "n2";
  local = remote;
  heap = λ p. Connection.new;
  arrives = true ∷ true ∷ [];
}

abbrev retried : Answers
retried = record { first = false; reconnects = true; second = true }

after_deliveries_example :
    (after ext (bytes "n1") retried app.id news (bytes "hi") none node
      ≡ times
          (if str_eq (bytes "n1") node.node_id
            then 1
            else received ext (bytes "n1") retried app.id news (bytes "hi") none node)
          (Local.send_to_channel ext app.id news (bytes "hi") none remote)
          node.heap)
    × (received ext (bytes "n1") retried app.id news (bytes "hi") none node ≤ 2)
after_deliveries_example =
    after_deliveries ext (bytes "n1") retried app.id news (bytes "hi") none node
