-- ===== src/Websocket/Sessions/Leaving.antt =====
-- A connection that leaves (`on_close` of src/websocket/lifecycle.rs).
use rushsocket.Base.{
  Str, true, false, Option, none, some, ℕ, List, [], ◌∷◌, ◌≡◌, refl, ap, ◌∙◌, arith, Bool-cases,
  Option-cases, inl, inr, ◌==◌,
}
use rushsocket.Base.Sets
use rushsocket.Externals.{Externals}
use rushsocket.Protocol.Channels.{from_name, is_presence}
use rushsocket.Websocket.Connection.{WsConnection, UserInfo, get_presence, get_channels}
use rushsocket.Websocket.Coupling.{Agrees}
use rushsocket.Websocket.Coupling.Messages.{listed-leave_presence, listed-leave_channel}
use rushsocket.Websocket.Lifecycle.{close_channel, close_channels, drop_user, on_close}
use rushsocket.Websocket.Lifecycle.Close.{on_close-AllMirrored, on_close_subscriptions}
use rushsocket.Websocket.Sessions.{World, put, left_by}
use rushsocket.Websocket.Sessions.Sound.{IsSound, same_live, apart_from}
use rushsocket.Adapter.Effects.{in_channel, AllMirrored}
use rushsocket.Adapter.Effects.Channels.{own}
use rushsocket.State.{AppState, at}
use rushsocket.State.Listed.{listed}

module _ (ext : Externals) (conn : WsConnection) where
  listed-close_channel :
      (channel : Str) (q : ℕ) (st : AppState)
      → listed q (close_channel ext conn channel st) ≡ listed q st
  unfolding close_channel
  listed-close_channel channel q st = elim (Bool-cases (is_presence (from_name channel))) [
    | inr e ↦ rw (e, close_channel) (listed-leave_channel ext conn channel q st)
    | inl e ↦ elim (Option-cases (get_presence channel (at conn st))) [
      | inl f ↦ rw (e, f, close_channel) (listed-leave_channel ext conn channel q st)
      | inr (m, f) ↦
          rw (e, f, close_channel)
            (listed-leave_channel ext conn channel q _
              ∙ listed-leave_presence ext conn channel m.0 q st)
    ]
  ]

  listed-close_channels :
      (channels : List Str) (q : ℕ) (st : AppState)
      → listed q (close_channels ext conn channels st) ≡ listed q st
  unfolding close_channels
  listed-close_channels [] q st = refl
  listed-close_channels (channel ∷ rest) q st =
      listed-close_channels rest q (close_channel ext conn channel st)
      ∙ listed-close_channel channel q st

  listed-drop_user :
      (user : Option UserInfo) (q : ℕ) (st : AppState)
      → listed q (drop_user ext conn user st) ≡ listed q st
  unfolding drop_user
  listed-drop_user none q st = refl
  listed-drop_user (some u) q st = refl

  pub listed-on_close : (q : ℕ) (st : AppState) → listed q (on_close ext conn st) ≡ listed q st
  unfolding on_close
  listed-on_close q st =
      listed-drop_user _ q _ ∙ listed-close_channels (get_channels (at conn st)) q st

  -- Another connection is not touched.
  Agrees-left :
      (c : WsConnection) (st : AppState)
      → AllMirrored st.adapter
      → own conn.app.id conn.socket_id c.app.id c.socket_id ≡ false
      → Agrees c st
      → Agrees c (on_close ext conn st)
  Agrees-left c st v o a ch =
      rw (on_close_subscriptions ext conn st c.app.id c.socket_id ch v, o)
        (ap (Sets.contains ch) (listed-on_close c.address st) ∙ a ch)

  put_live :
      (p : ℕ) (c : WsConnection) (w : World)
      → put conn.address none w.live p ≡ some c
      → ((conn.address == p) ≡ false) × (w.live p ≡ some c)
  unfolding put
  put_live p c w h = ground arith

  put_kept :
      (p : ℕ) (c : WsConnection) (w : World)
      → (conn.address == p) ≡ false
      → w.live p ≡ some c
      → put conn.address none w.live p ≡ some c
  unfolding put
  put_kept p c w e h = ground arith

  -- What is still in a channel is not the client's own, and was there before.
  pub still_there :
      (st : AppState) (app_id s ch : Str)
      → AllMirrored st.adapter
      → in_channel app_id s ch (on_close ext conn st).adapter ≡ true
      → (own conn.app.id conn.socket_id app_id s ≡ false)
        × (in_channel app_id s ch st.adapter ≡ true)
  still_there st app_id s ch v h =
      ground (arith, on_close_subscriptions ext conn st app_id s ch v, h)

  elsewhere :
      (c : WsConnection) (p : ℕ) (w : World) (app_id s : Str)
      → w.live conn.address ≡ some conn
      → w.live p ≡ some c
      → own c.app.id c.socket_id app_id s ≡ true
      → own conn.app.id conn.socket_id app_id s ≡ false
      → (conn.address == p) ≡ false
  elsewhere c p w app_id s l h mine other = elim (Bool-cases (conn.address == p)) [
    | inr e ↦ e
    | inl e ↦ ground (
      arith,
      ap (λ (d : WsConnection). own d.app.id d.socket_id app_id s) (same_live conn c p w l h e),
    )
  ]

  owned_after :
      (w : World) (app_id s ch : Str)
      → IsSound w
      → w.live conn.address ≡ some conn
      → in_channel app_id s ch (on_close ext conn w.shared).adapter ≡ true
      → (p : ℕ) × (c : WsConnection) × (put conn.address none w.live p ≡ some c)
        × (own c.app.id c.socket_id app_id s ≡ true)
  owned_after w app_id s ch i l h =
      let k = still_there w.shared app_id s ch i.mirrored h in
      let o = i.owned app_id s ch k.1 in
      (o.0, o.1, put_kept o.0 o.1 w (elsewhere o.1 o.0 w app_id s l o.2 o.3 k.0) o.2, o.3)

  pub IsSound-leaves :
      (w : World)
      → IsSound w
      → w.live conn.address ≡ some conn
      → IsSound (left_by ext conn w.shared w)
  IsSound-leaves w i l = record {
    mirrored = on_close-AllMirrored ext conn w.shared i.mirrored;
    placed = λ p c h. i.placed p c (put_live p c w h).1;
    apart = λ p q c d h k. i.apart p q c d (put_live p c w h).1 (put_live q d w k).1;
    agrees = λ p c h.
        let g = put_live p c w h in
        Agrees-left c w.shared i.mirrored (apart_from conn w c p i l g.1 g.0).1 (i.agrees p c g.1);
    owned = λ app_id s ch h. owned_after w app_id s ch i l h;
  }
