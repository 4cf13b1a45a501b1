-- ===== src/Adapter/Redis/Peers/Copies.antt =====
-- A message to a channel on all nodes (`send_to_channel` and `handle_broadcast` of
-- src/adapter/redis/mod.rs, `publish` of src/adapter/redis/pubsub.rs). Redis delivers each of the
-- published messages to a node or does not; the sender gets its own messages back.
use rushsocket.Base.{
  ◌≡◌, refl, ◌≤◌, arith, Str, str_eq, Bool, true, false, ℕ, Option, List, [], ◌∷◌, if◌then◌else◌,
  length, Bool-cases, inl, inr, ap, zero, suc, ◌∙◌,
}
use rushsocket.Externals.{Externals}
use rushsocket.Websocket.Connection.{Heap}
use rushsocket.Adapter.Local
use rushsocket.Adapter.Local.{LocalAdapter}
use rushsocket.Adapter.Redis.Peers.{
  BroadcastMessage, channel_message, Answers, publish, handle_broadcast, send_to_channel,
}

-- A node with its tables, its connections, and which of the published messages Redis delivers to it.
pub record Node : Type 0 where
  pub node_id : Str
  pub local : LocalAdapter
  pub heap : Heap
  pub arrives : List Bool

unfoldable pub delivered : List Bool → List BroadcastMessage → List BroadcastMessage
delivered [] messages = []
delivered (b ∷ arrives) [] = []
delivered (true ∷ arrives) (message ∷ messages) = message ∷ delivered arrives messages
delivered (false ∷ arrives) (message ∷ messages) = delivered arrives messages

unfoldable pub times : ℕ → (Heap → Heap) → Heap → Heap
times zero f heap = heap
times (suc n) f heap = times n f (f heap)

unfoldable copies : ℕ → BroadcastMessage → List BroadcastMessage
copies zero message = []
copies (suc n) message = message ∷ copies n message

delivered-copies :
    (arrives : List Bool) (n : ℕ) (message : BroadcastMessage)
    → delivered arrives (copies n message)
      ≡ copies (length (delivered arrives (copies n message))) message
unfolding delivered copies
delivered-copies [] n message = refl
delivered-copies (true ∷ arrives) zero message = refl
delivered-copies (false ∷ arrives) zero message = refl
delivered-copies (true ∷ arrives) (suc n) message =
    ap (λ messages. message ∷ messages) (delivered-copies arrives n message)
delivered-copies (false ∷ arrives) (suc n) message = delivered-copies arrives n message

length-delivered :
    (arrives : List Bool) (n : ℕ) (message : BroadcastMessage)
    → length (delivered arrives (copies n message)) ≤ n
unfolding delivered copies
length-delivered [] n message = omega arith
length-delivered (true ∷ arrives) zero message = omega arith
length-delivered (false ∷ arrives) zero message = omega arith
length-delivered (true ∷ arrives) (suc n) message =
    omega (arith, length-delivered arrives n message)
length-delivered (false ∷ arrives) (suc n) message =
    omega (arith, length-delivered arrives n message)

abbrev commands : Answers → ℕ
commands answers = if answers.first then 1 else if answers.reconnects then 2 else 1

publish-copies :
    (answers : Answers) (message : BroadcastMessage)
    → (publish answers message).0 ≡ copies (commands answers) message
unfolding publish copies
publish-copies answers message = elim (Bool-cases answers.first) [
  | inl e ↦ simp e refl
  | inr e ↦ elim (Bool-cases answers.reconnects) [
    | inl f ↦ simp (e, f) refl
    | inr f ↦ simp (e, f) refl
  ]
]

module _ (ext : Externals) (sender : Str) where
  -- What a node does with the messages of the sender, one after the other.
  unfoldable pub receives : Str → LocalAdapter → List BroadcastMessage → Heap → Heap
  receives node_id a [] heap = heap
  receives node_id a (message ∷ messages) heap =
      receives node_id a messages (handle_broadcast ext node_id sender message a heap)

  module _ (answers : Answers) (app_id channel message : Str) (excepting_id : Option Str) where
    -- The sender sends to its own sockets; then every node, the sender too, handles what arrives.
    unfoldable pub after : Node → Heap
    after n =
        let r =
          send_to_channel ext n.node_id answers app_id channel message excepting_id n.local
            n.heap in
        let heap = if str_eq sender n.node_id then r.1 else n.heap in
        receives n.node_id n.local (delivered n.arrives r.0) heap

    -- How many of the published messages reach a node.
    abbrev pub received : Node → ℕ
    received n = length (
        delivered n.arrives
          (publish answers (channel_message app_id channel message excepting_id)).0)

    handle_broadcast-own :
        (node_id : Str) (a : LocalAdapter) (heap : Heap)
        → str_eq sender node_id ≡ true
        → handle_broadcast ext node_id sender
            (channel_message app_id channel message excepting_id)
            a
            heap
          ≡ heap
    unfolding handle_broadcast
    handle_broadcast-own node_id a heap e = rw e refl

    handle_broadcast-others :
        (node_id : Str) (a : LocalAdapter) (heap : Heap)
        → str_eq sender node_id ≡ false
        → handle_broadcast ext node_id sender
            (channel_message app_id channel message excepting_id)
            a
            heap
          ≡ Local.send_to_channel ext app_id channel message excepting_id a heap
    unfolding handle_broadcast
    handle_broadcast-others node_id a heap e = rw e refl

    receives-own :
        (node_id : Str) (a : LocalAdapter) (n : ℕ) (heap : Heap)
        → str_eq sender node_id ≡ true
        → receives node_id a (copies n (channel_message app_id channel message excepting_id)) heap
          ≡ heap
    unfolding receives copies
    receives-own node_id a zero heap e = refl
    receives-own node_id a (suc n) heap e =
        ap (receives node_id a (copies n (channel_message app_id channel message excepting_id)))
          (handle_broadcast-own node_id a heap e)
        ∙ receives-own node_id a n heap e

    receives-others :
        (node_id : Str) (a : LocalAdapter) (n : ℕ) (heap : Heap)
        → str_eq sender node_id ≡ false
        → receives node_id a (copies n (channel_message app_id channel message excepting_id)) heap
          ≡ times n (Local.send_to_channel ext app_id channel message excepting_id a) heap
    unfolding receives copies times
    receives-others node_id a zero heap e = refl
    receives-others node_id a (suc n) heap e =
        ap (receives node_id a (copies n (channel_message app_id channel message excepting_id)))
          (handle_broadcast-others node_id a heap e)
        ∙ receives-others node_id a n
            (Local.send_to_channel ext app_id channel message excepting_id a heap) e

    delivered-published :
        (n : Node)
        → delivered n.arrives
            (publish answers (channel_message app_id channel message excepting_id)).0
          ≡ copies (received n) (channel_message app_id channel message excepting_id)
    delivered-published n =
        rw (publish-copies answers (channel_message app_id channel message excepting_id)) (
          delivered-copies n.arrives (commands answers)
            (channel_message app_id channel message excepting_id))

    -- Whatever Redis answers and delivers: the node that sends a message to a channel delivers it to
    -- its own sockets exactly once, even if publishing fails and if its own messages come back; every
    -- other node delivers it to its sockets once for each published message that reaches it, of which
    -- there is at most one if the first command to publish it succeeds, and two if it fails.
    pub after_deliveries :
        (n : Node)
        → (after n
            ≡ times
                (if str_eq sender n.node_id then 1 else received n)
                (Local.send_to_channel ext app_id channel message excepting_id n.local)
                n.heap)
          × (received n ≤ (if answers.first then 1 else 2))
    unfolding after send_to_channel times
    after_deliveries n = (
      elim (Bool-cases (str_eq sender n.node_id)) [
        | inl e ↦ rw e (
            ap
              (λ messages.
                receives n.node_id n.local messages
                  (Local.send_to_channel ext app_id channel message excepting_id n.local n.heap))
              (delivered-published n)
            ∙ receives-own n.node_id n.local (received n) _ e)
        | inr e ↦ rw e (
            ap (λ messages. receives n.node_id n.local messages n.heap) (delivered-published n)
            ∙ receives-others n.node_id n.local (received n) n.heap e)
      ],
      rw (publish-copies answers (channel_message app_id channel message excepting_id)) (
          ground (
            arith,
            length-delivered n.arrives (commands answers)
                (channel_message app_id channel message excepting_id),
          )),
    )
