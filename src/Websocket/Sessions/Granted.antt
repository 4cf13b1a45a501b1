-- ===== src/Websocket/Sessions/Granted.antt =====
-- How the sockets that are in a channel came into it, over a whole history (src/websocket/mod.rs and
-- src/websocket/lifecycle.rs).
use rushsocket.Base.{Str, true, false, ◌≡◌, ◌⊎◌, inl, inr, sym, ◌∙◌, arith}
use rushsocket.Http.Quiet.{IsQuiet, trigger-IsQuiet, trigger_batch-IsQuiet, terminate-IsQuiet}
use rushsocket.Base.{ap, sym, ◌∙◌}
use rushsocket.Externals.{Externals}
use rushsocket.Websocket.Connection.{WsConnection}
use rushsocket.Websocket.Task.{Event}
use rushsocket.Websocket.Task.Rounds.{Round, round-Round, EventGrants}
use rushsocket.Websocket.Sessions.{
  triggered, batch_triggered, terminated, World, Step, enters, over_quota, not_greeted, goes_on,
  breaks_off, is_closed, elapses, shuts_down, Reach, here, next, IsStart,
}
use rushsocket.Websocket.Sessions.Sound.{IsSound}
use rushsocket.Websocket.Sessions.Entering.{in_channel-register, in_channel-not_greeted}
use rushsocket.Websocket.Sessions.Leaving.{still_there}
use rushsocket.Websocket.Sessions.Steps.{Reach-IsSound, in_channel-empty}
use rushsocket.Adapter.Effects.{in_channel, AllMirrored, Effects-AllMirrored}
use rushsocket.Adapter.Effects.Joined.{Effects-joined}
use rushsocket.State.{AppState}

module _ (ext : Externals) (app_id socket_id channel : Str) where
  -- The client is the one with the socket, and its event asks for the channel with all that the
  -- channel needs.
  abbrev pub Asks : WsConnection → Event → Type 0
  Asks conn event =
      (app_id ≡ conn.app.id) × (socket_id ≡ conn.socket_id) × EventGrants ext conn event channel

  abbrev pub AskedBy : {w w' : World} → Step ext w w' → Type 0
  AskedBy (goes_on conn event sent sent' st w l c h) = Asks conn event
  AskedBy (breaks_off conn event sent sent' st w l c h) = Asks conn event
  AskedBy _ = ⊥

  -- Some step of the history is such an event.
  abbrev pub Granted : {s w : World} → Reach ext s w → Type 0
  Granted here = ⊥
  Granted (next r step) = Granted r ⊎ AskedBy step

  -- The socket is in the channel.
  abbrev IsIn : AppState → Type 0
  IsIn st = in_channel app_id socket_id channel st.adapter ≡ true

  IsIn-kept : (st st' : AppState) → IsQuiet st st' → IsIn st' → IsIn st
  IsIn-kept st st' k m = sym (ap (in_channel app_id socket_id channel) k.adapter) ∙ m

  IsIn-Round :
      (conn : WsConnection) (event : Event) (st st' : AppState)
      → AllMirrored st.adapter
      → Round conn (EventGrants ext conn event) st st'
      → IsIn st'
      → IsIn st ⊎ Asks conn event
  IsIn-Round conn event st st' v r m =
      Effects-joined conn (EventGrants ext conn event) st.adapter st'.adapter app_id socket_id
        channel v r.effects m

  Step-granted :
      {w w' : World} (step : Step ext w w')
      → IsSound w
      → IsIn w'.shared
      → IsIn w.shared ⊎ AskedBy step
  Step-granted (enters conn w f h) i m =
      inl (sym (in_channel-register ext conn app_id socket_id channel w.shared) ∙ m)
  Step-granted (over_quota conn w f h) i m =
      inl (sym (in_channel-register ext conn app_id socket_id channel w.shared) ∙ m)
  Step-granted (not_greeted conn w f h) i m =
      inl (sym (in_channel-not_greeted ext conn app_id socket_id channel w i f) ∙ m)
  Step-granted (goes_on conn event sent sent' st w l c h) i m =
      IsIn-Round conn event w.shared st i.mirrored
        (round-Round ext conn event sent w.shared true sent' st i.mirrored h) m
  Step-granted (breaks_off conn event sent sent' st w l c h) i m =
      let r = round-Round ext conn event sent w.shared false sent' st i.mirrored h in
      IsIn-Round conn event w.shared st i.mirrored r
        (still_there ext conn st app_id socket_id channel
          (Effects-AllMirrored conn _ w.shared.adapter st.adapter r.effects i.mirrored) m).1
  Step-granted (is_closed conn w l h) i m =
      inl (still_there ext conn w.shared app_id socket_id channel i.mirrored m).1
  Step-granted (elapses now w h) i m = inl m
  Step-granted (triggered bodies manager app_id2 params body r w h) i m = inl (
      IsIn-kept w.shared r.1 (trigger-IsQuiet ext bodies manager app_id2 params body w.shared r h)
        m)
  Step-granted (batch_triggered bodies manager app_id2 params body r w h) i m = inl (
      IsIn-kept w.shared r.1
        (trigger_batch-IsQuiet ext bodies manager app_id2 params body w.shared r h) m)
  Step-granted (terminated manager app_id2 user_id params w) i m =
      inl (IsIn-kept w.shared _ (terminate-IsQuiet ext manager app_id2 user_id params w.shared) m)
  Step-granted (shuts_down w) i m = inl m

  -- From a node without connections, however the tasks interleave: if a socket is in a channel, then
  -- some message of that very client asked for the channel, by a valid name and, if the channel
  -- needs one, with a verified token.
  pub Reach-Granted :
      (s w : World) (r : Reach ext s w)
      → IsStart s
      → in_channel app_id socket_id channel w.shared.adapter ≡ true
      → Granted r
  Reach-Granted s w here h m =
      ground (arith, in_channel-empty ext s.shared.adapter app_id socket_id channel h.0)
  Reach-Granted s w (next r step) h m = elim (Step-granted step (Reach-IsSound ext s _ h r) m) [
    | inl k ↦ inl (Reach-Granted s _ r h k)
    | inr k ↦ inr k
  ]
