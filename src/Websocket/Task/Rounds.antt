-- ===== src/Websocket/Task/Rounds.antt =====
-- What one round of a connection's loop (`run_connection` of src/websocket/mod.rs) changes outside the
-- connection.
use rushsocket.Base.{
  arith, Str, Bool, true, false, none, some, List, [], ◌∷◌, ◌*◌, ltb, length, ◌≡◌, refl, Bool-cases,
  Option-cases, inl, inr,
}
use mathlib.Core.Option.{some-injective}
use rushsocket.Externals.{Externals}
use rushsocket.Websocket.Connection.{WsConnection, ConnState, is_stale, clear_pinged, mark_pinged}
use rushsocket.Websocket.Coupling.{same, Coupled, Coupled-same, Coupled-after_quiet, Moves}
use rushsocket.Websocket.Coupling.Messages.{on_message-Moves, Coupled-on_conn, Coupled-tell}
use rushsocket.Websocket.Lifecycle.{on_message}
use rushsocket.Websocket.Lifecycle.Grants.{on_message-Effects, TextGrants}
use rushsocket.Websocket.Task.{
  Event, text, binary, pong_frame, stream_end, outgoing, deadline, receive, round, pop_outbox,
}
use rushsocket.Adapter.Effects.{AllMirrored, Effects, Effects-same}
use rushsocket.State.{AppState, at, on_conn}
use rushsocket.State.Frames.{adapter-on_conn, adapter-tell}

-- What a round may do: operations of the client on the adapter that join only channels that it may
-- join, and the same change of the connection's own list.
pub record Round (conn : WsConnection) (MayJoin : Str → Type 0) (st st' : AppState) : Type 0 where
  pub effects : Effects conn MayJoin st.adapter st'.adapter
  pub moves : Moves conn st st'

none-some {ℓ} : {A : Type ℓ} (a : A) → none ≡ some a → ⊥
none-some a h = ground arith

-- The event is a message that asks for the channel with all that the channel needs.
abbrev pub EventGrants : Externals → WsConnection → Event → Str → Type 0
EventGrants ext conn (text message) channel = TextGrants ext conn message channel
EventGrants ext conn (binary message is_utf8) channel = TextGrants ext conn message channel
EventGrants ext conn _ channel = ⊥

module _ (ext : Externals) (conn : WsConnection) (MayJoin : Str → Type 0) where
  Round-quiet :
      (st st' : AppState)
      → st'.adapter ≡ st.adapter
      → Coupled conn same st st'
      → Round conn MayJoin st st'
  Round-quiet st st' e k = record { effects = Effects-same conn MayJoin _ _ e; moves = (same, k) }

  Round-idle : (st : AppState) → Round conn MayJoin st st
  Round-idle st = Round-quiet st st refl (Coupled-same conn st st (λ q. refl) (λ app_id s c. refl))

  Round-on_conn :
      (f : ConnState → ConnState) (st : AppState)
      → (f (at conn st)).subscribed_channels ≡ (at conn st).subscribed_channels
      → Round conn MayJoin st (on_conn conn f st)
  Round-on_conn f st h =
      Round-quiet st _ (adapter-on_conn conn f st) (Coupled-on_conn ext conn f st h)

  Round-some :
      (st : AppState) (r r' : Bool × List Str × AppState)
      → some r ≡ some r'
      → Round conn MayJoin st r.2
      → Round conn MayJoin st r'.2
  Round-some st r r' h k = rw (← some-injective r r' h) k

module _ (ext : Externals) (conn : WsConnection) where
  Round-message :
      (message : Str) (st st' : AppState)
      → AllMirrored st.adapter
      → on_message ext conn message (on_conn conn clear_pinged st) ≡ some st'
      → Round conn (TextGrants ext conn message) st st'
  Round-message message st st' v h =
      let e = adapter-on_conn conn clear_pinged st in
      let k = on_message-Moves ext conn message _ st' (rw e v) h in
      record {
        effects = rw e at (on_message-Effects ext conn message _ st' h);
        moves = (
          k.0,
          Coupled-after_quiet conn k.0 st _ st' (Coupled-on_conn ext conn clear_pinged st refl) k.1,
        );
      }

  receive-Round :
      (message : Str) (is_utf8 go : Bool) (sent sent' : List Str) (st st' : AppState)
      → AllMirrored st.adapter
      → receive ext conn message is_utf8 sent st ≡ some (go, sent', st')
      → Round conn (TextGrants ext conn message) st st'
  unfolding receive
  receive-Round message is_utf8 go sent sent' st st' v h =
      elim (Bool-cases (ltb (conn.app.max_message_size_in_kb * 1024) (length message))) [
        | inl e ↦
            Round-some ext conn _ st _ (go, sent', st') (rw (e, receive) at h)
              (Round-quiet ext conn _ st _ (adapter-tell ext conn _ st)
                (Coupled-tell ext conn _ st))
        | inr e ↦ elim (Bool-cases is_utf8) [
          | inr f ↦
              Round-some ext conn _ st _ (go, sent', st') (rw (e, f, receive) at h)
                (Round-on_conn ext conn _ clear_pinged st refl)
          | inl f ↦
              elim (Option-cases (on_message ext conn message (on_conn conn clear_pinged st))) [
                | inl g ↦ absurd (none-some _ (rw (e, f, g, receive) at h))
                | inr (st2, g) ↦
                    Round-some ext conn _ st (true, sent, st2) (go, sent', st')
                      (rw (e, f, g, receive) at h) (Round-message message st st2 v g)
              ]
        ]
      ]

  pop_outbox-same :
      (box : List Str) (c : ConnState)
      → c.outbox ≡ box
      → (pop_outbox c).subscribed_channels ≡ c.subscribed_channels
  unfolding pop_outbox
  pop_outbox-same [] c e = rw (e, pop_outbox) refl
  pop_outbox-same (m ∷ rest) c e = rw (e, pop_outbox) refl

  outgoing-Round :
      (box : List Str) (ok : Bool) (sent : List Str) (st : AppState) (go : Bool) (sent' : List Str)
      (st' : AppState)
      → (at conn st).outbox ≡ box
      → round ext conn (outgoing ok) sent st ≡ some (go, sent', st')
      → Round conn (λ c. ⊥) st st'
  unfolding round
  outgoing-Round [] ok sent st go sent' st' e h =
      Round-some ext conn _ st (true, sent, st) (go, sent', st') (rw (e, round) at h)
        (Round-idle ext conn _ st)
  outgoing-Round (m ∷ rest) ok sent st go sent' st' e h =
      Round-some ext conn _ st _ (go, sent', st') (rw (e, round) at h)
        (Round-on_conn ext conn _ pop_outbox st (pop_outbox-same (m ∷ rest) (at conn st) e))

  -- If the two indexes of every app agree: a round of the loop that does not panic does to the
  -- adapter only operations of the client that join channels its message asks for with all that
  -- they need, and the connection's own list of channels and its subscriptions in the adapter change
  -- in the same way, by at most one channel, while every other list and subscription stays.
  pub round-Round :
      (event : Event) (sent : List Str) (st : AppState) (go : Bool) (sent' : List Str)
      (st' : AppState)
      → AllMirrored st.adapter
      → round ext conn event sent st ≡ some (go, sent', st')
      → Round conn (EventGrants ext conn event) st st'
  unfolding round pop_outbox
  round-Round (text message) sent st go sent' st' v h =
      receive-Round message true go sent sent' st st' v h
  round-Round (binary message is_utf8) sent st go sent' st' v h =
      receive-Round message is_utf8 go sent sent' st st' v h
  round-Round pong_frame sent st go sent' st' v h =
      Round-some ext conn _ st _ (go, sent', st') h (Round-on_conn ext conn _ clear_pinged st refl)
  round-Round stream_end sent st go sent' st' v h =
      Round-some ext conn _ st (false, sent, st) (go, sent', st') h (Round-idle ext conn _ st)
  round-Round (outgoing ok) sent st go sent' st' v h =
      outgoing-Round (at conn st).outbox ok sent st go sent' st' refl h
  round-Round (deadline ok) sent st go sent' st' v h = elim (Bool-cases (is_stale (at conn st))) [
    | inl e ↦
        Round-some ext conn _ st (false, _, st) (go, sent', st') (rw (e, round) at h)
          (Round-idle ext conn _ st)
    | inr e ↦
        Round-some ext conn _ st _ (go, sent', st') (rw (e, round) at h)
          (Round-on_conn ext conn _ mark_pinged st refl)
  ]
