-- ===== src/Adapter/Redis/Summary.antt =====
-- What a node's statistics say of its own tables (`collect_local_stats` of src/adapter/redis/mod.rs).
use rushsocket.Base.{
  arith, Str, str_eq, str_eq_iff, ℕ, none, some, is_some, List, [], ◌∷◌, get_or, ◌>>=◌, ◌≡◌, refl,
  sym, ap, ◌∙◌, Option-cases, Bool-cases, inl, inr, if◌then◌else◌,
}
use rushsocket.Base.Assoc
use rushsocket.Base.Assoc.{Assoc}
use rushsocket.Base.Sets
use rushsocket.Protocol.Json.{Json, Fields, field, end, number, pos_int, get_field}
use rushsocket.Adapter.Namespace
use rushsocket.Adapter.Local
use rushsocket.Adapter.Local.{LocalAdapter, get_ns}
use rushsocket.Adapter.Redis.Stats.{
  put, str_lt, as_u64, channel_stats, app_stats, stats_of, collect_local_stats, connections_in,
  sockets_in,
}

contains-keys {ℓ} :
    {V : Type ℓ} (k : Str) (m : Assoc V)
    → Sets.contains k (Assoc.keys m) ≡ is_some (Assoc.lookup k m)
unfolding Sets.contains Assoc.lookup
contains-keys k [] = refl
contains-keys k ((i, v) ∷ m) = elim (Bool-cases (str_eq i k)) [
  | inl e ↦ rw e refl
  | inr e ↦ rw e (contains-keys k m)
]

get_field-put :
    (key j : Str) (value : Json) (fields : Fields)
    → get_field j (put key value fields) ≡ (if str_eq key j then some value else get_field j fields)
unfolding get_field put
get_field-put key j value end = refl
get_field-put key j value (field k v fields) =
    ground
      (arith, str_eq_iff k key, str_eq_iff k j, str_eq_iff key j, get_field-put key j value fields)

get_field-stats_of :
    (app_id : Str) (ids : List Str) (a : LocalAdapter) (apps : Fields)
    → get_field app_id (stats_of ids a apps)
      ≡ (if Sets.contains app_id ids then some (app_stats app_id a) else get_field app_id apps)
unfolding Sets.contains stats_of
get_field-stats_of app_id [] a apps = refl
get_field-stats_of app_id (i ∷ ids) a apps = elim (Bool-cases (Sets.contains app_id ids)) [
  | inl e ↦ rw (get_field-stats_of app_id ids a (put i (app_stats i a) apps), e) (ground arith)
  | inr e ↦ elim (Bool-cases (str_eq i app_id)) [
    | inl f ↦
        rw
          (
            get_field-stats_of app_id ids a (put i (app_stats i a) apps),
            e,
            get_field-put i app_id (app_stats i a) apps,
            f,
          )
          (ap (λ x. some (app_stats x a)) ((str_eq_iff i app_id).0 f))
    | inr f ↦
        rw
          (
            get_field-stats_of app_id ids a (put i (app_stats i a) apps),
            e,
            get_field-put i app_id (app_stats i a) apps,
            f,
          )
          refl
  ]
]

-- The number of a channel's sockets as JSON.
abbrev channel_count : Str → Str → LocalAdapter → Json
channel_count app_id ch a = number (pos_int (Local.get_channel_socket_count app_id ch a))

get_field-channel_stats :
    (app_id ch : Str) (channels : List Str) (a : LocalAdapter) (ch_map : Fields)
    → get_field ch (channel_stats app_id channels a ch_map) ≡ (
        if Sets.contains ch channels then some (channel_count app_id ch a) else get_field ch ch_map)
unfolding Sets.contains channel_stats
get_field-channel_stats app_id ch [] a ch_map = refl
get_field-channel_stats app_id ch (i ∷ channels) a ch_map =
    let ih =
      get_field-channel_stats app_id ch channels a (put i (channel_count app_id i a) ch_map) in
    elim (Bool-cases (Sets.contains ch channels)) [
      | inl e ↦ rw (ih, e) (ground arith)
      | inr e ↦ elim (Bool-cases (str_eq i ch)) [
        | inl f ↦
            rw (ih, e, get_field-put i ch (channel_count app_id i a) ch_map, f)
              (ap (λ x. some (channel_count app_id x a)) ((str_eq_iff i ch).0 f))
        | inr f ↦ rw (ih, e, get_field-put i ch (channel_count app_id i a) ch_map, f) refl
      ]
    ]

-- A node's statistics give its own counts.
pub connections_in-collect_local_stats :
    (app_id : Str) (a : LocalAdapter)
    → connections_in app_id (collect_local_stats a) ≡ Local.get_connection_count app_id a
unfolding connections_in collect_local_stats app_stats get_field str_eq put str_lt
    Local.get_connection_count
connections_in-collect_local_stats app_id a =
    rw (get_field-stats_of app_id (Assoc.keys a) a end, contains-keys app_id a)
      (elim (Option-cases (Assoc.lookup app_id a)) [
        | inl e ↦ rw (e, Local.get_connection_count) refl
        | inr (ns, e) ↦ rw (e, Local.get_connection_count) refl
      ])

count_none :
    (app_id channel : Str) (a : LocalAdapter)
    → Assoc.lookup app_id a ≡ none
    → Local.get_channel_socket_count app_id channel a ≡ 0
unfolding Local.get_channel_socket_count
count_none app_id channel a e = rw (e, Local.get_channel_socket_count) refl

count_some :
    (app_id channel : Str) (ns : Namespace.Namespace) (a : LocalAdapter)
    → Assoc.lookup app_id a ≡ some ns
    → Local.get_channel_socket_count app_id channel a
      ≡ Namespace.get_channel_socket_count channel ns
unfolding Local.get_channel_socket_count
count_some app_id channel ns a e = rw (e, Local.get_channel_socket_count) refl

channels_none :
    (app_id : Str) (a : LocalAdapter)
    → Assoc.lookup app_id a ≡ none
    → Local.get_channels app_id a ≡ []
unfolding Local.get_channels
channels_none app_id a e = rw (e, Local.get_channels) refl

channels_some :
    (app_id : Str) (ns : Namespace.Namespace) (a : LocalAdapter)
    → Assoc.lookup app_id a ≡ some ns
    → Local.get_channels app_id a ≡ Assoc.keys ns.channels
unfolding Local.get_channels
channels_some app_id ns a e = rw (e, Local.get_channels) refl

no_sockets :
    (channel : Str) (ns : Namespace.Namespace)
    → Assoc.lookup channel ns.channels ≡ none
    → Namespace.get_channel_socket_count channel ns ≡ 0
unfolding Namespace.get_channel_socket_count
no_sockets channel ns f = rw (f, Namespace.get_channel_socket_count) refl

-- A channel that is not listed has no sockets.
unlisted :
    (channel : Str) (ns : Namespace.Namespace) (m : ℕ)
    → Namespace.get_channel_socket_count channel ns ≡ m
    → get_or
        ((if Sets.contains channel (Assoc.keys ns.channels)
            then some (number (pos_int m))
            else none)
          >>= as_u64)
        0
      ≡ m
unfolding Namespace.get_channel_socket_count
unlisted channel ns m h =
    rw (contains-keys channel ns.channels) (elim (Option-cases (Assoc.lookup channel ns.channels)) [
      | inl f ↦ rw f (sym (no_sockets channel ns f) ∙ h)
      | inr (sids, f) ↦ rw f refl
    ])

-- The entry of a channel is its count, and a channel without an entry has no sockets.
channel_entry :
    (app_id channel : Str) (a : LocalAdapter)
    → get_or
        (get_field channel (channel_stats app_id (Local.get_channels app_id a) a end) >>= as_u64)
        0
      ≡ Local.get_channel_socket_count app_id channel a
unfolding Sets.contains get_field
channel_entry app_id channel a =
    rw (get_field-channel_stats app_id channel (Local.get_channels app_id a) a end)
      (elim (Option-cases (Assoc.lookup app_id a)) [
        | inl e ↦ rw (channels_none app_id a e) (sym (count_none app_id channel a e))
        | inr (ns, e) ↦ rw (channels_some app_id ns a e) (
            unlisted channel ns (Local.get_channel_socket_count app_id channel a)
              (sym (count_some app_id channel ns a e)))
      ])

pub sockets_in-collect_local_stats :
    (app_id channel : Str) (a : LocalAdapter)
    → sockets_in app_id channel (collect_local_stats a)
      ≡ Local.get_channel_socket_count app_id channel a
unfolding sockets_in collect_local_stats app_stats get_field str_eq put str_lt
sockets_in-collect_local_stats app_id channel a =
    rw (get_field-stats_of app_id (Assoc.keys a) a end, contains-keys app_id a)
      (elim (Option-cases (Assoc.lookup app_id a)) [
        | inl e ↦ rw e (sym (count_none app_id channel a e))
        | inr (ns, e) ↦ rw e (channel_entry app_id channel a)
      ])
