-- ===== src/Adapter/Namespace/Presence.antt =====
-- The presence channels of a namespace (src/adapter/namespace.rs): a user is a member of a channel
-- while one of the user's sockets is in it, and a channel has at most so many members.
use rushsocket.Base.{
  Str, str_eq, str_eq_iff, str_eq_refl, Bool, true, false, not, ◌&&◌, ◌||◌, Option, none, some, ℕ,
  ◌+◌, ◌≤◌, ◌≡◌, ◌↔◌, arith, is_some, length, if◌then◌else◌, Option-cases, inl, inr,
}
use rushsocket.Base.Assoc
use rushsocket.Base.Assoc.{Assoc, lookup-insert, lookup-remove, contains_key}
use rushsocket.Base.Sets
use rushsocket.Protocol.Json.{Json}
use rushsocket.Adapter.Namespace.{
  Namespace, Members, members, join, part, try_add_presence_member, remove_presence_member,
  get_presence_members, get_presence_user_count,
}
use rushsocket.Adapter.Namespace.Members.{
  sockets_of, sockets_of-join, contains_key-join, length-join, sockets_of-part, contains_key-part,
  part_nil, is_nil, known_of_gone,
}

-- The user is listed in the channel.
unfoldable pub is_member : Str → Str → Namespace → Bool
is_member user_id channel ns = contains_key user_id (members channel ns)

-- The socket is one of the user's in the channel.
unfoldable pub present : Str → Str → Str → Namespace → Bool
present socket_id user_id channel ns =
    Sets.contains socket_id (sockets_of user_id (members channel ns))

pub members-insert :
    (ch c : Str) (m : Members) (ns : Namespace)
    → members c (record ns { presence = Assoc.insert ch m ns.presence })
      ≡ (if str_eq ch c then m else members c ns)
unfolding members
members-insert ch c m ns = ground (arith, lookup-insert ch c m ns.presence)

user_count-eq : (c : Str) (ns : Namespace) → get_presence_user_count c ns ≡ length (members c ns)
unfolding get_presence_user_count members
user_count-eq c ns = ground arith

module _ (ch socket_id user_id : Str) (info : Json) (max : ℕ) (ns : Namespace) where
  abbrev result : Namespace × Option (Bool × Assoc Json)
  result = try_add_presence_member ch socket_id user_id info max ns

  members-try_add :
      (c : Str)
      → members c result.0 ≡ (
          if str_eq ch c && is_some result.1
          then join socket_id user_id info (members ch ns)
          else members c ns)
  unfolding try_add_presence_member
  members-try_add c = ground (
    arith,
    str_eq_iff ch c,
    members-insert ch c (members ch ns) ns,
    members-insert ch c (join socket_id user_id info (members ch ns)) ns,
  )

  -- `try_add_presence_member` fails exactly if the user is no member yet and the channel has as many
  -- members as it may.
  pub try_add_presence_member-full :
      (result.1 ≡ none)
      ↔ ((is_member user_id ch ns ≡ false) × (max ≤ get_presence_user_count ch ns))
  unfolding try_add_presence_member is_member
  try_add_presence_member-full =
      (λ h. ground (arith, user_count-eq ch ns), λ h. ground (arith, user_count-eq ch ns))

  -- If `try_add_presence_member` succeeds the socket is one of the user's in the channel, and no other
  -- socket of a member changes; if it fails no socket of a member changes.
  pub present-try_add :
      (s u c : Str)
      → present s u c result.0 ≡ (
          (is_some result.1 && (str_eq ch c && (str_eq user_id u && str_eq socket_id s)))
          || present s u c ns)
  unfolding present
  present-try_add s u c = ground (
    arith,
    members-try_add c,
    str_eq_iff ch c,
    str_eq_iff user_id u,
    sockets_of-join socket_id user_id u info (members ch ns),
    Sets.contains-insert socket_id s (sockets_of user_id (members ch ns)),
  )

  pub is_member-try_add :
      (u c : Str)
      → is_member u c result.0
        ≡ ((is_some result.1 && (str_eq ch c && str_eq user_id u)) || is_member u c ns)
  unfolding is_member
  is_member-try_add u c = ground (
    arith,
    members-try_add c,
    str_eq_iff ch c,
    contains_key-join socket_id user_id u info (members ch ns),
  )

  -- What `try_add_presence_member` returns if it succeeds: whether the user is a new member, and the members of the channel with the new
  -- one.
  pub try_add_presence_member-result :
      (is_new : Bool) (listed : Assoc Json)
      → result.1 ≡ some (is_new, listed)
      → (is_new ≡ not (is_member user_id ch ns)) × (listed ≡ get_presence_members ch result.0)
  unfolding try_add_presence_member is_member get_presence_members
  try_add_presence_member-result is_new listed h = ground (
    arith,
    str_eq_refl ch,
    lookup-insert ch ch (join socket_id user_id info (members ch ns)) ns.presence,
  )

  room_of_admitted :
      is_some result.1 ≡ true
      → contains_key user_id (members ch ns) ≡ false
      → length (members ch ns) + 1 ≤ max
  unfolding try_add_presence_member
  room_of_admitted h k = ground arith

  -- No call takes a channel over the limit that it is given: a channel with at most `max` members
  -- has at most `max` members after it.
  pub try_add_presence_member-bounded :
      (c : Str) → get_presence_user_count c ns ≤ max → get_presence_user_count c result.0 ≤ max
  try_add_presence_member-bounded c h = ground (
    arith,
    user_count-eq c ns,
    user_count-eq c result.0,
    members-try_add c,
    str_eq_iff ch c,
    length-join socket_id user_id info (members ch ns),
    room_of_admitted,
  )

module _ (ch socket_id user_id : Str) (ns : Namespace) where
  members-remove :
      (c : Str)
      → members c (remove_presence_member ch socket_id user_id ns).0
        ≡ (if str_eq ch c then (part socket_id user_id (members ch ns)).0 else members c ns)
  unfolding remove_presence_member members
  members-remove c = elim (Option-cases (Assoc.lookup ch ns.presence)) [
    | inl e ↦ ground (arith, e, str_eq_iff ch c, part_nil socket_id user_id)
    | inr (m, e) ↦ ground (
      arith,
      e,
      str_eq_iff ch c,
      lookup-insert ch c (part socket_id user_id m).0 ns.presence,
      lookup-remove ch c ns.presence,
      is_nil (part socket_id user_id m).0,
    )
  ]

  -- After `remove_presence_member` the socket is not one of the user's in the channel, and no other
  -- socket of a member has changed.
  pub present-remove :
      (s u c : Str)
      → present s u c (remove_presence_member ch socket_id user_id ns).0
        ≡ (not (str_eq ch c && (str_eq user_id u && str_eq socket_id s)) && present s u c ns)
  unfolding present
  present-remove s u c = ground (
    arith,
    members-remove c,
    str_eq_iff ch c,
    str_eq_iff user_id u,
    sockets_of-part socket_id user_id u (members ch ns),
    Sets.contains-remove socket_id s (sockets_of user_id (members ch ns)),
  )

  remove_flag :
      (remove_presence_member ch socket_id user_id ns).1
      ≡ (part socket_id user_id (members ch ns)).1
  unfolding remove_presence_member members
  remove_flag = elim (Option-cases (Assoc.lookup ch ns.presence)) [
    | inl e ↦ ground (arith, e, part_nil socket_id user_id)
    | inr (m, e) ↦ ground (arith, e)
  ]

  pub is_member-remove :
      (u c : Str)
      → is_member u c (remove_presence_member ch socket_id user_id ns).0 ≡ (
          not (
            (remove_presence_member ch socket_id user_id ns).1 && (str_eq ch c && str_eq user_id u))
          && is_member u c ns)
  unfolding is_member
  is_member-remove u c = ground (
    arith,
    members-remove c,
    str_eq_iff ch c,
    remove_flag,
    contains_key-part socket_id user_id u (members ch ns),
  )

  -- `remove_presence_member` reports that the user is gone exactly if the user was a member of the channel and is none
  -- any more.
  pub remove_presence_member-gone : ((remove_presence_member ch socket_id user_id ns).1 ≡ true) ↔ (
      (is_member user_id ch ns ≡ true)
      × (is_member user_id ch (remove_presence_member ch socket_id user_id ns).0 ≡ false))
  unfolding is_member
  remove_presence_member-gone = (
    λ h. ground (
      arith,
      is_member-remove user_id ch,
      str_eq_refl ch,
      str_eq_refl user_id,
      remove_flag,
      known_of_gone socket_id user_id (members ch ns),
    ),
    λ h. ground (arith, is_member-remove user_id ch, str_eq_refl ch, str_eq_refl user_id),
  )
