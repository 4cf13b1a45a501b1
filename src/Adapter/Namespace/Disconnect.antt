-- ===== src/Adapter/Namespace/Disconnect.antt =====
-- `remove_socket` of src/adapter/namespace.rs: the socket leaves all its channels at once.
use rushsocket.Base.{
  Str, str_eq, str_eq_iff, true, false, not, ◌&&◌, ◌||◌, some, List, [], ◌∷◌, ◌≡◌, ◌↔◌, arith,
  is_empty, Option-cases, inl, inr, if◌then◌else◌,
}
use rushsocket.Base.Assoc
use rushsocket.Base.Assoc.{Assoc, entry, entry-insert, entry-remove, lookup-insert, lookup-remove}
use rushsocket.Base.Sets
use rushsocket.Adapter.Namespace.{Namespace, leave, leave_all, remove_socket}
use rushsocket.Adapter.Namespace.Membership.{
  subscribed, indexed, IsMirrored, HasSubscriber, entry-replace, entry_of_none, entry_of_some,
  vacated_iff,
}

-- No set in the map is empty, and no element stands twice in one.
pub record IsTidy (m : Assoc (List Str)) : Type 0 where
  pub occupied : (c : Str) (s : List Str) → Assoc.lookup c m ≡ some s → is_empty s ≡ false
  pub unique : (c : Str) (s : List Str) → Assoc.lookup c m ≡ some s → Sets.distinct s ≡ true

pub IsTidy-replace :
    (k : Str) (s : List Str) (m : Assoc (List Str))
    → IsTidy m
    → Sets.distinct s ≡ true
    → IsTidy (if is_empty s then Assoc.remove k m else Assoc.insert k s m)
IsTidy-replace k [] m v d = record {
  occupied = λ c t h. ground (arith, lookup-remove k c m, v.occupied c t);
  unique = λ c t h. ground (arith, lookup-remove k c m, v.unique c t);
}
IsTidy-replace k (x ∷ s) m v d = record {
  occupied = λ c t h. ground (arith, lookup-insert k c (x ∷ s) m, v.occupied c t);
  unique = λ c t h. ground (arith, lookup-insert k c (x ∷ s) m, v.unique c t);
}

abbrev State : Type 0
State = Assoc (List Str) × List Str

module _ (socket_id : Str) where
  entry-leave :
      (ch c : Str) (st : State)
      → entry c (leave socket_id ch st).0
        ≡ (if str_eq ch c then Sets.remove socket_id (entry ch st.0) else entry c st.0)
  unfolding leave
  entry-leave ch c (m, vac) = elim (Option-cases (Assoc.lookup ch m)) [
    | inl e ↦ ground (arith, e, entry_of_none ch m, str_eq_iff ch c, Sets.remove_nil socket_id)
    | inr (s, e) ↦
        ground (arith, e, entry_of_some ch m s, entry-replace ch c (Sets.remove socket_id s) m)
  ]

  IsTidy-leave : (ch : Str) (st : State) → IsTidy st.0 → IsTidy (leave socket_id ch st).0
  unfolding leave
  IsTidy-leave ch (m, vac) v = elim (Option-cases (Assoc.lookup ch m)) [
    | inl e ↦ rw (e, leave) v
    | inr (s, e) ↦
        rw (e, leave)
          (IsTidy-replace ch (Sets.remove socket_id s) m v
            (Sets.distinct-remove socket_id s (v.unique ch s e)))
  ]

  vacated_step :
      (ch c : Str) (st : State)
      → IsTidy st.0
      → Sets.contains c (leave socket_id ch st).1 ≡ (
          Sets.contains c st.1
          || (str_eq ch c
              && (not (is_empty (entry ch st.0))
                  && is_empty (Sets.remove socket_id (entry ch st.0)))))
  unfolding leave
  vacated_step ch c (m, vac) v = elim (Option-cases (Assoc.lookup ch m)) [
    | inl e ↦ ground (arith, e, entry_of_none ch m)
    | inr (s, e) ↦ ground (
      arith,
      e,
      entry_of_some ch m s,
      v.occupied ch s e,
      Sets.contains-append c vac (ch ∷ []),
      Sets.contains_cons ch c [],
      Sets.contains_nil c,
    )
  ]

  -- A channel is vacated by the step if it was occupied before it and is not after it.
  vacated-leave :
      (ch c : Str) (st : State)
      → IsTidy st.0
      → Sets.contains c (leave socket_id ch st).1 ≡ (
          Sets.contains c st.1
          || (not (is_empty (entry c st.0)) && is_empty (entry c (leave socket_id ch st).0)))
  vacated-leave ch c st v =
      ground (arith, vacated_step ch c st v, entry-leave ch c st, str_eq_iff ch c)

  is_empty-leave :
      (ch c : Str) (st : State)
      → is_empty (entry c st.0) ≡ true
      → is_empty (entry c (leave socket_id ch st).0) ≡ true
  is_empty-leave ch c st h =
      ground
        (arith, entry-leave ch c st, str_eq_iff ch c, Sets.is_empty-remove socket_id (entry c st.0))

  entry-leave_all :
      (chs : List Str) (c : Str) (st : State)
      → entry c (leave_all socket_id chs st).0
        ≡ (if Sets.contains c chs then Sets.remove socket_id (entry c st.0) else entry c st.0)
  unfolding leave_all
  entry-leave_all [] c st = ground (arith, Sets.contains_nil c)
  entry-leave_all (ch ∷ chs) c st = ground (
    arith,
    entry-leave_all chs c (leave socket_id ch st),
    entry-leave ch c st,
    Sets.contains_cons ch c chs,
    str_eq_iff ch c,
    Sets.remove-remove socket_id (entry c st.0),
  )

  IsTidy-leave_all :
      (chs : List Str) (st : State) → IsTidy st.0 → IsTidy (leave_all socket_id chs st).0
  unfolding leave_all
  IsTidy-leave_all [] st v = v
  IsTidy-leave_all (ch ∷ chs) st v =
      IsTidy-leave_all chs (leave socket_id ch st) (IsTidy-leave ch st v)

  is_empty-leave_all :
      (chs : List Str) (c : Str) (st : State)
      → is_empty (entry c st.0) ≡ true
      → is_empty (entry c (leave_all socket_id chs st).0) ≡ true
  is_empty-leave_all chs c st h =
      ground (arith, entry-leave_all chs c st, Sets.is_empty-remove socket_id (entry c st.0))

  vacated-leave_all :
      (chs : List Str) (c : Str) (st : State)
      → IsTidy st.0
      → Sets.contains c (leave_all socket_id chs st).1 ≡ (
          Sets.contains c st.1
          || (not (is_empty (entry c st.0)) && is_empty (entry c (leave_all socket_id chs st).0)))
  unfolding leave_all
  vacated-leave_all [] c st v = ground arith
  vacated-leave_all (ch ∷ chs) c st v = ground (
    arith,
    vacated-leave_all chs c (leave socket_id ch st) (IsTidy-leave ch st v),
    vacated-leave ch c st v,
    is_empty-leave ch c st,
    is_empty-leave_all chs c (leave socket_id ch st),
  )

module _ (socket_id : Str) (ns : Namespace) (v : IsMirrored ns) where
  tidy : IsTidy ns.channels
  tidy = record { occupied = v.occupied; unique = v.unique }

  -- In a namespace whose two indexes agree, after `remove_socket` the socket is in no channel, and no
  -- other subscription has changed.
  pub subscribed-remove_socket :
      (s c : Str)
      → subscribed s c (remove_socket socket_id ns).0
        ≡ (not (str_eq socket_id s) && subscribed s c ns)
  unfolding remove_socket subscribed indexed
  subscribed-remove_socket s c = ground (
    arith,
    entry-leave_all socket_id (entry socket_id ns.socket_channels) c (ns.channels, []),
    Sets.contains-remove socket_id s (entry c ns.channels),
    v.mirrored socket_id c,
    str_eq_iff socket_id s,
  )

  pub indexed-remove_socket :
      (s c : Str)
      → indexed s c (remove_socket socket_id ns).0 ≡ (not (str_eq socket_id s) && indexed s c ns)
  unfolding remove_socket indexed
  indexed-remove_socket s c =
      ground (arith, entry-remove socket_id s ns.socket_channels, Sets.contains_nil c)

  -- In a namespace whose two indexes agree, the channels that `remove_socket` returns are exactly those
  -- that had a subscriber and have none any more, so not the channels of the socket that others are
  -- still in.
  pub remove_socket-vacated :
      (c : Str)
      → (Sets.contains c (remove_socket socket_id ns).1 ≡ true)
        ↔ (HasSubscriber c ns × (¬ HasSubscriber c (remove_socket socket_id ns).0))
  unfolding remove_socket
  remove_socket-vacated c = rw flag (vacated_iff c ns (remove_socket socket_id ns).0)
    where
      flag : Sets.contains c (remove_socket socket_id ns).1 ≡ (
          not (is_empty (entry c ns.channels))
          && is_empty (entry c (remove_socket socket_id ns).0.channels))
      flag = ground (
        arith,
        vacated-leave_all socket_id (entry socket_id ns.socket_channels) c (ns.channels, []) tidy,
        Sets.contains_nil c,
      )

  pub IsTidy-remove_socket : IsTidy (remove_socket socket_id ns).0.channels
  unfolding remove_socket
  IsTidy-remove_socket = IsTidy-leave_all socket_id _ (ns.channels, []) tidy
