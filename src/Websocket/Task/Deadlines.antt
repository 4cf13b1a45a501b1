-- ===== src/Websocket/Task/Deadlines.antt =====
-- A client that stays silent is disconnected (`run_connection` of src/websocket/mod.rs): the first
-- deadline pings it, and the second ends the loop.
use rushsocket.Base.{
  Str, Bool, true, false, ◌&&◌, Option, none, some, ℕ, suc, ◌+◌, ◌≤◌, List, [], ◌∷◌, ◌≡◌, refl,
  arith, Bool-cases, Option-cases, inl, inr, if◌then◌else◌,
}
use rushsocket.Externals.{Externals}
use rushsocket.Websocket.Connection.{
  write_self, WsConnection, ConnState, should_close, is_stale, mark_pinged,
}
use rushsocket.Websocket.Task.{
  Event, text, binary, pong_frame, stream_end, outgoing, deadline, round, pop_outbox, Outcome,
  ended, run_loop,
}
use rushsocket.State.{AppState, at, on_conn}

-- The client says nothing and does not hang up.
abbrev pub is_silent : Event → Bool
is_silent (outgoing ok) = true
is_silent (deadline ok) = true
is_silent _ = false

abbrev pub all_silent : List Event → Bool
all_silent [] = true
all_silent (event ∷ events) = is_silent event && all_silent events

abbrev pub deadlines : List Event → ℕ
deadlines [] = 0
deadlines (deadline ok ∷ events) = suc (deadlines events)
deadlines (_ ∷ events) = deadlines events

module _ (ext : Externals) (conn : WsConnection) where
  abbrev pub has_ended : Option (Outcome ext conn) → Bool
  has_ended (some (ended sent st)) = true
  has_ended _ = false

  -- The deadlines that have passed since the client was last heard.
  abbrev passed : AppState → ℕ
  passed st = if is_stale (at conn st) then 1 else 0

  -- The rest of the loop after a round that went on.
  abbrev rest_of : List Event → Option (Bool × List Str × AppState) → Option (Outcome ext conn)
  rest_of events none = none
  rest_of events (some next) =
      if next.0 then run_loop ext conn events next.1 next.2 else some (ended next.1 next.2)

  run_loop-step :
      (event : Event) (events : List Event) (sent : List Str) (st : AppState)
      → run_loop ext conn (event ∷ events) sent st ≡ (
          if should_close (at conn st)
          then some (ended sent st)
          else rest_of events (round ext conn event sent st))
  unfolding run_loop
  run_loop-step event events sent st = elim (Bool-cases (should_close (at conn st))) [
    | inl e ↦ rw e refl
    | inr e ↦ rw e (elim (Option-cases (round ext conn event sent st)) [
      | inl f ↦ rw f refl
      | inr (next, f) ↦ rw f refl
    ])
  ]

  pinged_kept : (box : List Str) (c : ConnState) → c.outbox ≡ box → (pop_outbox c).pinged ≡ c.pinged
  unfolding pop_outbox
  pinged_kept [] c e = rw (e, pop_outbox) refl
  pinged_kept (m ∷ rest) c e = rw (e, pop_outbox) refl

  at-on_conn :
      (f : ConnState → ConnState) (st : AppState) → at conn (on_conn conn f st) ≡ f (at conn st)
  unfolding on_conn
  at-on_conn f st = write_self conn.address (f (at conn st)) st.heap

  ended_after :
      (events : List Event) (go : Bool) (sent : List Str) (st : AppState)
      → has_ended (run_loop ext conn events sent st) ≡ true
      → has_ended (rest_of events (some (go, sent, st))) ≡ true
  ended_after events true sent st h = h
  ended_after events false sent st h = refl

  silent-step :
      (event : Event) (events : List Event) (sent : List Str) (st : AppState)
      → has_ended (rest_of events (round ext conn event sent st)) ≡ true
      → has_ended (run_loop ext conn (event ∷ events) sent st) ≡ true
  silent-step event events sent st h =
      rw (run_loop-step event events sent st)
        (elim (Bool-cases (should_close (at conn st))) [ inl e ↦ rw e refl | inr e ↦ rw e h ])

  -- The loop ends on these events, by the deadlines that the client has let pass.
  abbrev pub Ends : List Event → Type 0
  Ends events =
      (sent : List Str) (st : AppState)
      → 2 ≤ deadlines events + passed st
      → has_ended (run_loop ext conn events sent st) ≡ true

  outgoing_from :
      (box : List Str) (ok : Bool) (events : List Event) (sent : List Str) (st : AppState)
      → Ends events
      → (at conn st).outbox ≡ box
      → 2 ≤ deadlines events + passed st
      → has_ended (rest_of events (round ext conn (outgoing ok) sent st)) ≡ true
  unfolding round
  outgoing_from [] ok events sent st ends e h = rw (e, round) (ends sent st h)
  outgoing_from (m ∷ rest) ok events sent st ends e h =
      rw (e, round)
        (ended_after events ok _ _
          (ends _ _ (rw (at-on_conn pop_outbox st, pinged_kept (m ∷ rest) (at conn st) e) h)))

  deadline_from :
      (ok : Bool) (events : List Event) (sent : List Str) (st : AppState)
      → Ends events
      → 2 ≤ suc (deadlines events) + passed st
      → has_ended (rest_of events (round ext conn (deadline ok) sent st)) ≡ true
  unfolding round
  deadline_from ok events sent st ends h = elim (Bool-cases (is_stale (at conn st))) [
    | inl e ↦ rw (e, round) refl
    | inr e ↦
        rw (e, round)
          (ended_after events ok _ _ (ends _ _ (rw (at-on_conn mark_pinged st) (ground arith))))
  ]

  pub silent-Ends : (events : List Event) → all_silent events ≡ true → Ends events
  silent-Ends [] s sent st h = ground arith
  silent-Ends (outgoing ok ∷ events) s sent st h =
      silent-step (outgoing ok) events sent st
        (outgoing_from (at conn st).outbox ok events sent st (silent-Ends events s) refl h)
  silent-Ends (deadline ok ∷ events) s sent st h =
      silent-step (deadline ok) events sent st
        (deadline_from ok events sent st (silent-Ends events s) h)
  silent-Ends (text message ∷ events) s sent st h = ground arith
  silent-Ends (binary message is_utf8 ∷ events) s sent st h = ground arith
  silent-Ends (pong_frame ∷ events) s sent st h = ground arith
  silent-Ends (stream_end ∷ events) s sent st h = ground arith
