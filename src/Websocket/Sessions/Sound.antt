-- ===== src/Websocket/Sessions/Sound.antt =====
-- What holds of all connections and the adapter at any time (src/websocket/mod.rs).
use mathlib.Core.Option.{some-injective}
use rushsocket.Base.Sets
use rushsocket.Base.{
  sym, ap, ◌∙◌, ==_iff, ◌∙◌, Str, Bool, true, false, some, ℕ, ◌≡◌, ◌≢◌, ◌⊎◌, refl, arith,
  Bool-cases, inl, inr, ◌==◌,
}
use rushsocket.Websocket.Connection.{WsConnection}
use rushsocket.Websocket.Coupling.{
  Change, same, entered, left, new_flag, Agrees, Agrees-own, Agrees-other, Moves,
}
use rushsocket.Websocket.Sessions.{World, with_shared}
use rushsocket.Adapter.Effects.{AllMirrored, in_channel}
use rushsocket.Adapter.Effects.Channels.{own}
use rushsocket.State.{AppState}
use rushsocket.State.Listed.{listed}

-- The two indexes of every app agree; the live connections are at their addresses and have different
-- sockets; each of them lists exactly the channels that the adapter has its socket in; and every
-- socket that is in a channel is that of a live connection.
pub record IsSound (w : World) : Type 0 where
  pub mirrored : AllMirrored w.shared.adapter
  pub placed : (p : ℕ) (c : WsConnection) → w.live p ≡ some c → c.address ≡ p
  pub apart :
      (p q : ℕ) (c d : WsConnection)
      → w.live p ≡ some c
      → w.live q ≡ some d
      → p ≢ q
      → own c.app.id c.socket_id d.app.id d.socket_id ≡ false
  pub agrees : (p : ℕ) (c : WsConnection) → w.live p ≡ some c → Agrees c w.shared
  pub owned :
      (app_id s ch : Str)
      → in_channel app_id s ch w.shared.adapter ≡ true
      → (p : ℕ) × (c : WsConnection) × (w.live p ≡ some c)
        × (own c.app.id c.socket_id app_id s ≡ true)

-- What a change adds is the client's own.
added_is_own :
    (change : Change) (c : Str) (mine b : Bool)
    → new_flag change c mine b ≡ true
    → (mine ≡ true) ⊎ (b ≡ true)
added_is_own same c mine b h = inr h
added_is_own (entered ch) c true b h = inl refl
added_is_own (entered ch) c false b h = inr h
added_is_own (left ch) c true b h = inl refl
added_is_own (left ch) c false b h = inr h

-- There is one live connection at an address.
pub same_live :
    (conn c : WsConnection) (p : ℕ) (w : World)
    → w.live conn.address ≡ some conn
    → w.live p ≡ some c
    → (conn.address == p) ≡ true
    → conn ≡ c
same_live conn c p w l h e =
    some-injective conn c (sym l ∙ ap w.live ((==_iff conn.address p).0 e) ∙ h)

module _ (conn : WsConnection) (w : World) where
  -- A connection at another address has another socket.
  pub apart_from :
      (c : WsConnection) (p : ℕ)
      → IsSound w
      → w.live conn.address ≡ some conn
      → w.live p ≡ some c
      → (conn.address == p) ≡ false
      → (conn.address ≢ c.address) × (own conn.app.id conn.socket_id c.app.id c.socket_id ≡ false)
  apart_from c p i l h e =
      let ne : conn.address ≢ p = ground arith in
      (rw (i.placed p c h) ne, i.apart conn.address p conn c l h ne)

  -- A live connection's change.
  pub IsSound-moves :
      (st : AppState)
      → IsSound w
      → w.live conn.address ≡ some conn
      → AllMirrored st.adapter
      → Moves conn w.shared st
      → IsSound (with_shared st w)
  IsSound-moves st i l v (change, k) = record {
    mirrored = v;
    placed = i.placed;
    apart = i.apart;
    agrees = λ p c h. elim (Bool-cases (conn.address == p)) [
      | inl e ↦
          rw (← same_live conn c p w l h e)
            (Agrees-own conn change w.shared st k (i.agrees conn.address conn l))
      | inr e ↦
          let f = apart_from c p i l h e in
          Agrees-other conn c change w.shared st f.0 f.1 k (i.agrees p c h)
    ];
    owned = λ app_id s ch h. elim (added_is_own change ch _ _ (sym (k.channels app_id s ch) ∙ h)) [
      | inl m ↦ (conn.address, conn, l, m)
      | inr m ↦ i.owned app_id s ch m
    ];
  }

-- A state with the same lists, and the same sockets in the channels.
pub IsSound-quiet :
    (st : AppState) (w : World)
    → IsSound w
    → AllMirrored st.adapter
    → ((p : ℕ) (c : WsConnection) → w.live p ≡ some c → listed p st ≡ listed p w.shared)
    → ((app_id s c : Str)
        → in_channel app_id s c st.adapter ≡ in_channel app_id s c w.shared.adapter)
    → IsSound (with_shared st w)
IsSound-quiet st w i v lists channels = record {
  mirrored = v;
  placed = i.placed;
  apart = i.apart;
  agrees = λ p c h ch.
      ap (Sets.contains ch) (rw (i.placed p c h) (lists p c h))
      ∙ i.agrees p c h ch
      ∙ sym (channels c.app.id c.socket_id ch);
  owned = λ app_id s ch h. i.owned app_id s ch (sym (channels app_id s ch) ∙ h);
}
