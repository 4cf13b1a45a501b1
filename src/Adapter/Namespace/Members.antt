-- ===== src/Adapter/Namespace/Members.antt =====
-- The members of one presence channel (src/adapter/namespace.rs): what the entry of a user holds
-- after one of the user's sockets has joined or left.
use rushsocket.Base.{
  Str, str_eq, str_eq_iff, not, ◌&&◌, ◌||◌, Option, none, some, ◌+◌, List, [], ◌∷◌, ◌≡◌, refl,
  arith, length, if◌then◌else◌, Option-cases, inl, inr,
}
use rushsocket.Base.Assoc
use rushsocket.Base.Assoc.{Assoc, lookup-insert, lookup-remove, contains_key}
use rushsocket.Base.Sets
use rushsocket.Protocol.Json.{Json}
use rushsocket.Adapter.Namespace.{is_empty, false, true, Members, join, part}

abbrev pub entry_sockets : Option (Json × List Str) → List Str
entry_sockets none = []
entry_sockets (some e) = e.1

unfoldable pub sockets_of : Str → Members → List Str
sockets_of user_id m = entry_sockets (Assoc.lookup user_id m)

pub sockets_of-join :
    (socket_id user_id u : Str) (info : Json) (m : Members)
    → sockets_of u (join socket_id user_id info m)
      ≡ (if str_eq user_id u then Sets.insert socket_id (sockets_of user_id m) else sockets_of u m)
unfolding sockets_of join
sockets_of-join socket_id user_id u info m = elim (Option-cases (Assoc.lookup user_id m)) [
  | inl e ↦
      ground (arith, e, lookup-insert user_id u (info, socket_id ∷ []) m, Sets.insert_nil socket_id)
  | inr (x, e) ↦ ground (arith, e, lookup-insert user_id u (x.0, Sets.insert socket_id x.1) m)
]

pub contains_key-join :
    (socket_id user_id u : Str) (info : Json) (m : Members)
    → contains_key u (join socket_id user_id info m) ≡ (str_eq user_id u || contains_key u m)
unfolding join
contains_key-join socket_id user_id u info m = elim (Option-cases (Assoc.lookup user_id m)) [
  | inl e ↦ ground (arith, e, lookup-insert user_id u (info, socket_id ∷ []) m)
  | inr (x, e) ↦ ground (arith, e, lookup-insert user_id u (x.0, Sets.insert socket_id x.1) m)
]

pub length-join :
    (socket_id user_id : Str) (info : Json) (m : Members)
    → length (join socket_id user_id info m)
      ≡ (if contains_key user_id m then length m else length m + 1)
unfolding join
length-join socket_id user_id info m = elim (Option-cases (Assoc.lookup user_id m)) [
  | inl e ↦ ground (arith, e, Assoc.length-insert user_id (info, socket_id ∷ []) m)
  | inr (x, e) ↦ ground (arith, e, Assoc.length-insert user_id (x.0, Sets.insert socket_id x.1) m)
]

pub sockets_of-part :
    (socket_id user_id u : Str) (m : Members)
    → sockets_of u (part socket_id user_id m).0
      ≡ (if str_eq user_id u then Sets.remove socket_id (sockets_of user_id m) else sockets_of u m)
unfolding sockets_of part
sockets_of-part socket_id user_id u m = elim (Option-cases (Assoc.lookup user_id m)) [
  | inl e ↦ ground (arith, e, str_eq_iff user_id u, Sets.remove_nil socket_id)
  | inr (x, e) ↦ ground (
    arith,
    e,
    lookup-insert user_id u (x.0, Sets.remove socket_id x.1) m,
    lookup-remove user_id u m,
    Sets.is_nil (Sets.remove socket_id x.1),
  )
]

pub contains_key-part :
    (socket_id user_id u : Str) (m : Members)
    → contains_key u (part socket_id user_id m).0
      ≡ (not (str_eq user_id u && (part socket_id user_id m).1) && contains_key u m)
unfolding part
contains_key-part socket_id user_id u m = elim (Option-cases (Assoc.lookup user_id m)) [
  | inl e ↦ ground (arith, e)
  | inr (x, e) ↦ ground (
    arith,
    e,
    lookup-insert user_id u (x.0, Sets.remove socket_id x.1) m,
    lookup-remove user_id u m,
    str_eq_iff user_id u,
  )
]

pub length-part :
    (socket_id user_id : Str) (m : Members)
    → Assoc.distinct m ≡ true
    → length (part socket_id user_id m).0 + (if (part socket_id user_id m).1 then 1 else 0)
      ≡ length m
unfolding part
length-part socket_id user_id m d = elim (Option-cases (Assoc.lookup user_id m)) [
  | inl e ↦ ground (arith, e)
  | inr (x, e) ↦ ground (
    arith,
    e,
    Assoc.length-insert user_id (x.0, Sets.remove socket_id x.1) m,
    Assoc.length-remove user_id m d,
  )
]

pub part_nil : (socket_id user_id : Str) → part socket_id user_id [] ≡ ([], false)
unfolding part Assoc.lookup
part_nil socket_id user_id = refl

pub is_nil : (m : Members) → is_empty m ≡ true → m ≡ []
is_nil [] h = refl
is_nil (x ∷ m) h = ground arith

pub known_of_gone :
    (socket_id user_id : Str) (m : Members)
    → (part socket_id user_id m).1 ≡ true
    → contains_key user_id m ≡ true
unfolding part
known_of_gone socket_id user_id m h = ground arith
