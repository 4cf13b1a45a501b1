-- ===== src/Websocket/Sessions/Steps.antt =====
-- What holds of all connections and the adapter stays so at every step of any task (src/websocket/mod.rs).
use rushsocket.Base.{Str, true, false, some, [], ◌≡◌, refl}
use rushsocket.Base.{arith}
use rushsocket.Base.Assoc
use rushsocket.Base.Sets
use rushsocket.Adapter.Effects.{AllMirrored, Effects-AllMirrored}
use rushsocket.Adapter.Local.{LocalAdapter, get_or_create_ns}
use rushsocket.Adapter.Namespace.Invariant.{new-IsMirrored}
use rushsocket.Adapter.Namespace.Membership.{subscribed}
use rushsocket.Http.Quiet.{IsQuiet, trigger-IsQuiet, trigger_batch-IsQuiet, terminate-IsQuiet}
use rushsocket.Base.{ap}
use rushsocket.Externals.{Externals}
use rushsocket.Websocket.Connection.{WsConnection}
use rushsocket.Websocket.Task.Rounds.{Round, round-Round}
use rushsocket.Websocket.Sessions.{
  triggered, batch_triggered, terminated, World, Step, enters, over_quota, not_greeted, goes_on,
  breaks_off, is_closed, elapses, shuts_down, Reach, here, next, IsStart, with_shared,
}
use rushsocket.Websocket.Sessions.Sound.{IsSound, IsSound-moves, IsSound-quiet}
use rushsocket.Websocket.Sessions.Entering.{IsSound-enters, IsSound-over_quota, IsSound-not_greeted}
use rushsocket.Websocket.Sessions.Leaving.{IsSound-leaves}
use rushsocket.Adapter.Effects.{in_channel}
use rushsocket.State.{AppState}

module _ (ext : Externals) where
  IsSound-Round :
      (conn : WsConnection) (MayJoin : Str → Type 0) (st : AppState) (w : World)
      → IsSound w
      → w.live conn.address ≡ some conn
      → Round conn MayJoin w.shared st
      → IsSound (with_shared st w)
  IsSound-Round conn MayJoin st w i l r =
      IsSound-moves conn w st i l
        (Effects-AllMirrored conn MayJoin w.shared.adapter st.adapter r.effects i.mirrored) r.moves

  IsSound-quieted :
      (st : AppState) (w : World) → IsSound w → IsQuiet w.shared st → IsSound (with_shared st w)
  IsSound-quieted st w i k =
      IsSound-quiet st w i (rw k.adapter i.mirrored) (λ p c h. k.lists p)
        (λ app_id s c. ap (in_channel app_id s c) k.adapter)

  pub Step-IsSound : {w w' : World} → Step ext w w' → IsSound w → IsSound w'
  Step-IsSound (enters conn w f h) i = IsSound-enters ext conn w i f
  Step-IsSound (over_quota conn w f h) i = IsSound-over_quota ext conn w i f
  Step-IsSound (not_greeted conn w f h) i = IsSound-not_greeted ext conn w i f
  Step-IsSound (goes_on conn event sent sent' st w l c h) i =
      IsSound-Round conn _ st w i l
        (round-Round ext conn event sent w.shared true sent' st i.mirrored h)
  Step-IsSound (breaks_off conn event sent sent' st w l c h) i =
      IsSound-leaves ext conn (with_shared st w)
        (IsSound-Round conn _ st w i l
          (round-Round ext conn event sent w.shared false sent' st i.mirrored h))
        l
  Step-IsSound (is_closed conn w l h) i = IsSound-leaves ext conn w i l
  Step-IsSound (elapses now w h) i =
      IsSound-quiet _ w i i.mirrored (λ p c l. refl) (λ app_id s c. refl)
  Step-IsSound (triggered bodies manager app_id params body r w h) i =
      IsSound-quieted r.1 w i (trigger-IsQuiet ext bodies manager app_id params body w.shared r h)
  Step-IsSound (batch_triggered bodies manager app_id params body r w h) i =
      IsSound-quieted r.1 w i
        (trigger_batch-IsQuiet ext bodies manager app_id params body w.shared r h)
  Step-IsSound (terminated manager app_id user_id params w) i =
      IsSound-quieted _ w i (terminate-IsQuiet ext manager app_id user_id params w.shared)
  Step-IsSound (shuts_down w) i =
      IsSound-quiet _ w i i.mirrored (λ p c l. refl) (λ app_id s c. refl)

  pub Reach-IsSound_from : {s w : World} → IsSound s → Reach ext s w → IsSound w
  Reach-IsSound_from i here = i
  Reach-IsSound_from i (next r s) = Step-IsSound s (Reach-IsSound_from i r)

  -- Without apps all the tables are empty.
  AllMirrored-empty : (a : LocalAdapter) → a ≡ [] → AllMirrored a
  unfolding get_or_create_ns Assoc.lookup
  AllMirrored-empty a e = rw e (λ j. new-IsMirrored)

  pub in_channel-empty :
      (a : LocalAdapter) (app_id s c : Str) → a ≡ [] → in_channel app_id s c a ≡ false
  unfolding in_channel get_or_create_ns Assoc.lookup subscribed Assoc.entry Sets.contains
  in_channel-empty a app_id s c e = rw e refl

  pub IsStart-IsSound : (w : World) → IsStart w → IsSound w
  IsStart-IsSound w (a, l) = record {
    mirrored = AllMirrored-empty w.shared.adapter a;
    placed = λ p c h. ground (arith, l p);
    apart = λ p q c d h k n. ground (arith, l p);
    agrees = λ p c h. ground (arith, l p);
    owned = λ app_id s c h. ground (arith, in_channel-empty w.shared.adapter app_id s c a);
  }

  -- From a node without connections, however the tasks of all connections interleave their rounds,
  -- entries and ends, and requests that publish events or terminate users come in between: the two
  -- indexes of every app agree, the live connections have different sockets, each lists exactly the
  -- channels that the adapter has its socket in, and every socket that is in a channel is that of a
  -- live connection.
  pub Reach-IsSound : (s w : World) → IsStart s → Reach ext s w → IsSound w
  Reach-IsSound s w h r = Reach-IsSound_from (IsStart-IsSound s h) r
