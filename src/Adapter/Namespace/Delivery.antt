-- ===== src/Adapter/Namespace/Delivery.antt =====
-- Who gets a message that is sent to a channel (`send_to_channel` of src/adapter/namespace.rs).
use rushsocket.Base.{
  ◌∙◌, ◌≢◌, Str, str_eq, str_eq_iff, Bool, true, not, ◌&&◌, Option, some, ℕ, List, [], ◌∷◌, ◌≡◌,
  refl, arith, if◌then◌else◌, Option-cases, Bool-cases, inl, inr,
}
use rushsocket.Base.Assoc
use rushsocket.Base.Assoc.{Assoc, entry}
use rushsocket.Base.Sets
use rushsocket.Externals.{Externals}
use rushsocket.Websocket.Connection.{
  write_other, write_self, WsConnection, ConnState, Heap, send_raw,
}
use rushsocket.Adapter.Namespace.{Namespace, is_excepted, send_one, send_each, send_to_channel}
use rushsocket.Adapter.Namespace.Membership.{subscribed, IsMirrored, entry_of_none, entry_of_some}

-- Two sockets do not share a connection.
abbrev pub Separate : Assoc WsConnection → Type 0
Separate sockets =
    (j k : Str) (c d : WsConnection)
    → Assoc.lookup j sockets ≡ some c
    → Assoc.lookup k sockets ≡ some d
    → c.address ≡ d.address
    → j ≡ k

-- The connection after a message, or as it was.
abbrev pub sent_if : Externals → Bool → Str → ConnState → ConnState
sent_if ext b message c = if b then (send_raw ext message c).0 else c

module _ (ext : Externals) (sockets : Assoc WsConnection) (excepting_id : Option Str)
    (message : Str) (apart : Separate sockets) (sid : Str) (conn : WsConnection)
    (found : Assoc.lookup sid sockets ≡ some conn) where
  send_one_self :
      (heap : Heap)
      → send_one ext sockets excepting_id message sid heap conn.address
        ≡ sent_if ext (not (is_excepted excepting_id sid)) message (heap conn.address)
  unfolding send_one
  send_one_self heap = elim (Bool-cases (is_excepted excepting_id sid)) [
    | inl e ↦ rw e refl
    | inr e ↦ rw (e, found) (write_self conn.address _ heap)
  ]

  send_one_other :
      (j : Str) (heap : Heap)
      → j ≢ sid
      → send_one ext sockets excepting_id message j heap conn.address ≡ heap conn.address
  unfolding send_one
  send_one_other j heap ne = elim (Bool-cases (is_excepted excepting_id j)) [
    | inl e ↦ rw e refl
    | inr e ↦ elim (Option-cases (Assoc.lookup j sockets)) [
      | inl f ↦ rw (e, f) refl
      | inr (d, f) ↦
          rw (e, f)
            (write_other d.address conn.address _ heap λ same. ne (apart j sid d conn f found same))
    ]
  ]

  send_one_at :
      (j : Str) (heap : Heap)
      → send_one ext sockets excepting_id message j heap conn.address
        ≡ sent_if ext
            (str_eq j sid && not (is_excepted excepting_id sid))
            message
            (heap conn.address)
  send_one_at j heap = elim (Bool-cases (str_eq j sid)) [
    | inl e ↦ rw (e, (str_eq_iff j sid).0 e) (send_one_self heap)
    | inr e ↦ rw e (send_one_other j heap (λ p. ground (arith, str_eq_iff j sid)))
  ]

  send_each_at :
      (sids : List Str) (heap : Heap)
      → Sets.distinct sids ≡ true
      → send_each ext sockets excepting_id message sids heap conn.address
        ≡ sent_if ext
            (Sets.contains sid sids && not (is_excepted excepting_id sid))
            message
            (heap conn.address)
  unfolding send_each Sets.distinct Sets.contains
  send_each_at [] heap d = refl
  send_each_at (j ∷ sids) heap d = ground (
    arith,
    send_each_at sids (send_one ext sockets excepting_id message j heap),
    send_one_at j heap,
    str_eq_iff j sid,
  )

-- In a namespace whose two indexes agree and whose sockets do not share a connection, a message to
-- a channel reaches each connection at most once: the connection
-- tries to queue it, once, exactly if its socket is subscribed to the channel and is not the
-- excepted one; otherwise it stays as it is. (`send_raw` says what trying does.)
pub send_to_channel_once :
    (ext : Externals) (channel message : Str) (excepting_id : Option Str) (ns : Namespace)
    (heap : Heap) (sid : Str) (conn : WsConnection)
    → IsMirrored ns
    → Separate ns.sockets
    → Assoc.lookup sid ns.sockets ≡ some conn
    → send_to_channel ext channel message excepting_id ns heap conn.address
      ≡ sent_if ext
          (subscribed sid channel ns && not (is_excepted excepting_id sid))
          message
          (heap conn.address)
unfolding send_to_channel subscribed
send_to_channel_once ext channel message excepting_id ns heap sid conn v apart found =
    elim (Option-cases (Assoc.lookup channel ns.channels)) [
      | inl e ↦
          rw (e, send_to_channel, entry_of_none channel ns.channels e, Sets.contains_nil sid) refl
      | inr (s, e) ↦
          rw (e, send_to_channel, entry_of_some channel ns.channels s e)
            (send_each_at ext ns.sockets excepting_id message apart sid conn found s heap
              (v.unique channel s e))
    ]

-- A connection that is not in the namespace's table gets nothing.
pub send_each_elsewhere :
    (ext : Externals) (sockets : Assoc WsConnection) (excepting_id : Option Str) (message : Str)
    (p : ℕ) (sids : List Str) (heap : Heap)
    → ((k : Str) (d : WsConnection) → Assoc.lookup k sockets ≡ some d → d.address ≢ p)
    → send_each ext sockets excepting_id message sids heap p ≡ heap p
unfolding send_each send_one
send_each_elsewhere ext sockets excepting_id message p [] heap away = refl
send_each_elsewhere ext sockets excepting_id message p (j ∷ sids) heap away =
    send_each_elsewhere ext sockets excepting_id message p sids
      (send_one ext sockets excepting_id message j heap) away
    ∙ step
  where
    step : send_one ext sockets excepting_id message j heap p ≡ heap p
    step = elim (Bool-cases (is_excepted excepting_id j)) [
      | inl e ↦ rw (e, send_one) refl
      | inr e ↦ elim (Option-cases (Assoc.lookup j sockets)) [
        | inl f ↦ rw (e, f, send_one) refl
        | inr (d, f) ↦ rw (e, f, send_one) (write_other d.address p _ heap (away j d f))
      ]
    ]
