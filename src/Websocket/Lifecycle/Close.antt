-- ===== src/Websocket/Lifecycle/Close.antt =====
-- The end of a connection (`on_close` of src/websocket/lifecycle.rs).
use rushsocket.Base.Assoc.{lookup-remove}
use rushsocket.Adapter.Namespace
use rushsocket.Base.Assoc
use rushsocket.Adapter.Namespace.Disconnect.{subscribed-remove_socket}
use rushsocket.Base.{
  ◌∙◌, str_eq_refl, some, Option, Str, none, some, List, [], ◌∷◌, Bool-cases, Option-cases, refl,
  true, false, not, ◌&&◌, inl, inr, arith, ◌≡◌, str_eq,
}
use rushsocket.Externals.{Externals}
use rushsocket.Protocol.Channels.{from_name, is_presence}
use rushsocket.Websocket.Connection.{WsConnection, UserInfo, get_presence, get_channels}
use rushsocket.Websocket.Lifecycle.{close_channel, close_channels, drop_user, on_close}
use rushsocket.Websocket.Lifecycle.Messages.{member_then-Effects, adapter-leave_presence}
use rushsocket.Adapter.Local
use rushsocket.Adapter.Local.{LocalAdapter, get_or_create_ns}
use rushsocket.Adapter.Local.Apps.{apply_local-Acts, apply_local}
use rushsocket.Adapter.Namespace.Histories.{apply, removes_user, removes_socket}
use rushsocket.Adapter.Effects.{
  Effects, Effects-same, Effects-one, Effects-trans, Effects-AllMirrored, AllMirrored, in_channel,
}
use rushsocket.Adapter.Effects.Others.{Effects-kept}
use rushsocket.State.{at, AppState}

module _ (ext : Externals) (conn : WsConnection) where
  -- Joins nothing.
  abbrev NoJoin : Str → Type 0
  NoJoin c = ⊥

  close_channel-Effects :
      (channel : Str) (st : AppState)
      → Effects conn NoJoin st.adapter (close_channel ext conn channel st).adapter
  unfolding close_channel
  close_channel-Effects channel st = elim (Bool-cases (is_presence (from_name channel))) [
    | inr e ↦ rw (e, close_channel) (member_then-Effects ext conn NoJoin channel st st (inl refl))
    | inl e ↦ elim (Option-cases (get_presence channel (at conn st))) [
      | inl f ↦
          rw (e, f, close_channel) (member_then-Effects ext conn NoJoin channel st st (inl refl))
      | inr (m, f) ↦
          rw (e, f, close_channel)
            (member_then-Effects ext conn NoJoin channel st _
              (inr (m.0, adapter-leave_presence ext conn channel m.0 st)))
    ]
  ]

  close_channels-Effects :
      (channels : List Str) (st : AppState)
      → Effects conn NoJoin st.adapter (close_channels ext conn channels st).adapter
  unfolding close_channels
  close_channels-Effects [] st = Effects-same conn NoJoin _ _ refl
  close_channels-Effects (c ∷ cs) st =
      Effects-trans conn NoJoin st.adapter (close_channel ext conn c st).adapter _
        (close_channel-Effects c st) (close_channels-Effects cs (close_channel ext conn c st))

  drop_user-Effects :
      (user : Option UserInfo) (st : AppState)
      → Effects conn NoJoin st.adapter (drop_user ext conn user st).adapter
  unfolding drop_user apply_local
  drop_user-Effects none st = Effects-same conn NoJoin _ _ refl
  drop_user-Effects (some u) st =
      Effects-one conn NoJoin (removes_user u.id conn.socket_id) _ _ refl refl

  -- The state before the socket itself is removed.
  abbrev closed : AppState → AppState
  closed st =
      let st1 = close_channels ext conn (get_channels (at conn st)) st in
      drop_user ext conn (at conn st1).user st1

  closed-Effects : (st : AppState) → Effects conn NoJoin st.adapter (closed st).adapter
  closed-Effects st =
      Effects-trans conn NoJoin _ _ _ (close_channels-Effects (get_channels (at conn st)) st)
        (drop_user-Effects _ _)

  on_close-Effects : (st : AppState) → Effects conn NoJoin st.adapter (on_close ext conn st).adapter
  unfolding on_close apply_local
  on_close-Effects st =
      Effects-trans conn NoJoin st.adapter (closed st).adapter _ (closed-Effects st)
        (Effects-one conn NoJoin (removes_socket conn.socket_id) _ _ refl refl)

  removed_socket :
      (a : LocalAdapter) (app_id s c : Str)
      → AllMirrored a
      → (str_eq conn.app.id app_id && str_eq conn.socket_id s) ≡ true
      → in_channel app_id s c (Local.remove_socket conn.app.id conn.socket_id a).0 ≡ false
  unfolding in_channel apply_local apply
  removed_socket a app_id s c v e =
      rw (apply_local-Acts conn.app.id (removes_socket conn.socket_id) a app_id) ground (
        arith,
        e,
        subscribed-remove_socket conn.socket_id (get_or_create_ns conn.app.id a) (v conn.app.id) s
            c,
      )

  -- If the two indexes of every app agree: after `on_close` the client's socket is in no channel of its app, and every other subscription,
  -- of other sockets and in other apps, is as it was.
  pub on_close_subscriptions :
      (st : AppState) (app_id socket_id channel : Str)
      → AllMirrored st.adapter
      → in_channel app_id socket_id channel (on_close ext conn st).adapter ≡ (
          not (str_eq conn.app.id app_id && str_eq conn.socket_id socket_id)
          && in_channel app_id socket_id channel st.adapter)
  unfolding on_close
  on_close_subscriptions st app_id s c v =
      elim (Bool-cases (str_eq conn.app.id app_id && str_eq conn.socket_id s)) [
        | inr e ↦ rw e (
            Effects-kept conn NoJoin st.adapter (on_close ext conn st).adapter app_id s c v
              (on_close-Effects st) e)
        | inl e ↦ rw e (own_gone e)
      ]
    where
      own_gone :
          (str_eq conn.app.id app_id && str_eq conn.socket_id s) ≡ true
          → in_channel app_id s c (on_close ext conn st).adapter ≡ false
      own_gone e = ground (
        arith,
        removed_socket (closed st).adapter app_id s c
            (Effects-AllMirrored conn NoJoin st.adapter _ (closed-Effects st) v),
        e,
      )

  -- The client's socket, looked for in its app's table.
  abbrev pub found : LocalAdapter → Option WsConnection
  found a = Assoc.lookup conn.socket_id (get_or_create_ns conn.app.id a).sockets

  pub found-remove_socket :
      (a : LocalAdapter) → found (Local.remove_socket conn.app.id conn.socket_id a).0 ≡ none
  unfolding apply_local apply Namespace.remove_socket
  found-remove_socket a =
      rw
        (
          apply_local-Acts conn.app.id (removes_socket conn.socket_id) a conn.app.id,
          str_eq_refl conn.app.id,
        )
        (lookup-remove conn.socket_id conn.socket_id _ ∙ rw (str_eq_refl conn.socket_id) refl)

  -- After `on_close` the socket is not in its app's table of sockets.
  pub on_close_socket : (st : AppState) → found (on_close ext conn st).adapter ≡ none
  unfolding on_close
  on_close_socket st = found-remove_socket (closed st).adapter

  -- The end of a connection keeps the two indexes of every app in step.
  pub on_close-AllMirrored :
      (st : AppState) → AllMirrored st.adapter → AllMirrored (on_close ext conn st).adapter
  on_close-AllMirrored st v = Effects-AllMirrored conn NoJoin st.adapter _ (on_close-Effects st) v
