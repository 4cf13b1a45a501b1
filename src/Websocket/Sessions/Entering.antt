-- ===== src/Websocket/Sessions/Entering.antt =====
-- A connection that comes (`run_connection` of src/websocket/mod.rs, up to its loop).
use mathlib.Core.Option.{some-injective}
use rushsocket.Base.{
  ◌⊎◌, ==_iff, Str, str_eq_refl, true, false, none, some, ℕ, [], ◌≡◌, ◌≢◌, sym, ap, ◌∙◌, arith,
  Bool-cases, inl, inr, if◌then◌else◌, ◌==◌,
}
use rushsocket.Base.Sets
use rushsocket.Externals.{Externals}
use rushsocket.Websocket.Connection.{WsConnection, write}
use rushsocket.Websocket.Coupling.{Agrees}
use rushsocket.Websocket.Sessions.{World, IsFresh, put, with_shared}
use rushsocket.Websocket.Sessions.Sound.{IsSound, IsSound-quiet}
use rushsocket.Websocket.Task.{register}
use rushsocket.Adapter.Local
use rushsocket.Adapter.Local.Apps.{apply_local}
use rushsocket.Adapter.Namespace.Histories.{tries_socket, removes_socket}
use rushsocket.Adapter.Effects.{in_channel, AllMirrored, apply_local-AllMirrored}
use rushsocket.Adapter.Effects.Channels.{
  own_comm, own-own, own, in_channel-tries_socket, in_channel-removes_socket,
}
use rushsocket.State.{AppState}
use rushsocket.State.Listed.{listed}

true-false : true ≡ false → ⊥
true-false h = ground arith

module _ (ext : Externals) (conn : WsConnection) where
  listed-register :
      (q : ℕ) (st : AppState)
      → listed q (register ext conn st).0 ≡ (if conn.address == q then [] else listed q st)
  unfolding register write
  listed-register q st = ground arith

  pub in_channel-register :
      (app_id s c : Str) (st : AppState)
      → in_channel app_id s c (register ext conn st).0.adapter ≡ in_channel app_id s c st.adapter
  unfolding register apply_local
  in_channel-register app_id s c st =
      in_channel-tries_socket conn.app.id conn conn.app.max_connections st.adapter app_id s c

  register-AllMirrored :
      (st : AppState) → AllMirrored st.adapter → AllMirrored (register ext conn st).0.adapter
  unfolding register apply_local
  register-AllMirrored st v =
      apply_local-AllMirrored conn (λ c. ⊥) (tries_socket conn conn.app.max_connections) st.adapter
        v

  -- A live connection is not at the address of a new one.
  unused_address :
      (p : ℕ) (c : WsConnection) (w : World)
      → w.live conn.address ≡ none
      → w.live p ≡ some c
      → (conn.address == p) ≡ false
  unused_address p c w u h = elim (Bool-cases (conn.address == p)) [
    | inr e ↦ e
    | inl e ↦ ground (arith, ap w.live ((==_iff conn.address p).0 e))
  ]

  -- A new socket is in no channel.
  fresh_in_none :
      (app_id s c : Str) (w : World)
      → IsSound w
      → IsFresh conn w
      → own conn.app.id conn.socket_id app_id s ≡ true
      → in_channel app_id s c w.shared.adapter ≡ false
  fresh_in_none app_id s c w i f mine = elim (Bool-cases (in_channel app_id s c w.shared.adapter)) [
    | inr e ↦ e
    | inl e ↦
        let o = i.owned app_id s c e in
        absurd (
          true-false (
            sym (own-own conn.app.id conn.socket_id o.1.app.id o.1.socket_id app_id s mine o.3)
            ∙ f.unique o.0 o.1 o.2))
  ]

  lists_kept :
      (w : World)
      → IsFresh conn w
      → (p : ℕ) (c : WsConnection) → w.live p ≡ some c
      → listed p (register ext conn w.shared).0 ≡ listed p w.shared
  lists_kept w f p c h = ground (arith, listed-register p w.shared, unused_address p c w f.unused h)

  pub IsSound-over_quota :
      (w : World)
      → IsSound w
      → IsFresh conn w
      → IsSound (with_shared (register ext conn w.shared).0 w)
  IsSound-over_quota w i f =
      IsSound-quiet _ w i (register-AllMirrored w.shared i.mirrored) (lists_kept w f)
        (λ app_id s c. in_channel-register app_id s c w.shared)

  -- A connection that is not greeted leaves the channels as they were.
  pub in_channel-not_greeted :
      (app_id s c : Str) (w : World)
      → IsSound w
      → IsFresh conn w
      → in_channel app_id s c
          (Local.remove_socket conn.app.id conn.socket_id (register ext conn w.shared).0.adapter).0
        ≡ in_channel app_id s c w.shared.adapter
  unfolding apply_local
  in_channel-not_greeted app_id s c w i f = ground (
    arith,
    in_channel-removes_socket conn.app.id conn.socket_id (register ext conn w.shared).0.adapter
        app_id s c (register-AllMirrored w.shared i.mirrored),
    in_channel-register app_id s c w.shared,
    fresh_in_none app_id s c w i f,
  )

  pub IsSound-not_greeted :
      (w : World)
      → IsSound w
      → IsFresh conn w
      → IsSound (
          with_shared
            (record (register ext conn w.shared).0 {
              adapter =
                  (Local.remove_socket conn.app.id conn.socket_id
                    (register ext conn w.shared).0.adapter).0;
            })
            w)
  unfolding apply_local
  IsSound-not_greeted w i f =
      let v = register-AllMirrored w.shared i.mirrored in
      IsSound-quiet _ w i
        (apply_local-AllMirrored conn (λ c. ⊥) (removes_socket conn.socket_id) _ v) (lists_kept w f)
        (λ app_id s c. in_channel-not_greeted app_id s c w i f)

  put_new :
      (p : ℕ) (c : WsConnection) (w : World)
      → (conn.address == p) ≡ false
      → w.live p ≡ some c
      → put conn.address (some conn) w.live p ≡ some c
  unfolding put
  put_new p c w e h = ground arith

  put_own : (w : World) → put conn.address (some conn) w.live conn.address ≡ some conn
  unfolding put
  put_own w = ground arith

  -- The new connection, or one that was there.
  put_cases :
      (p : ℕ) (c : WsConnection) (w : World)
      → put conn.address (some conn) w.live p ≡ some c
      → ((conn ≡ c) × (conn.address ≡ p)) ⊎ (((conn.address == p) ≡ false) × (w.live p ≡ some c))
  unfolding put
  put_cases p c w h = elim (Bool-cases (conn.address == p)) [
    | inl e ↦ inl (some-injective conn c (rw (e, put) at h), (==_iff conn.address p).0 e)
    | inr e ↦ inr (e, rw (e, put) at h)
  ]

  Agrees-new : (w : World) → IsSound w → IsFresh conn w → Agrees conn (register ext conn w.shared).0
  unfolding Sets.contains
  Agrees-new w i f ch = ground (
    arith,
    ap (Sets.contains ch) (listed-register conn.address w.shared),
    listed-register conn.address w.shared,
    in_channel-register conn.app.id conn.socket_id ch w.shared,
    fresh_in_none conn.app.id conn.socket_id ch w i f,
    str_eq_refl conn.app.id,
    str_eq_refl conn.socket_id,
  )

  others_agree :
      (p : ℕ) (c : WsConnection) (w : World)
      → IsSound w
      → IsFresh conn w
      → w.live p ≡ some c
      → Agrees c (register ext conn w.shared).0
  others_agree p c w i f h ch =
      ap (Sets.contains ch) (rw (i.placed p c h) (lists_kept w f p c h))
      ∙ i.agrees p c h ch
      ∙ sym (in_channel-register c.app.id c.socket_id ch w.shared)

  -- The world with the new connection.
  abbrev entered_world : World → World
  entered_world w = record {
    shared = (register ext conn w.shared).0;
    live = put conn.address (some conn) w.live;
  }

  Agrees-entered :
      (p : ℕ) (c : WsConnection) (w : World)
      → IsSound w
      → IsFresh conn w
      → put conn.address (some conn) w.live p ≡ some c
      → Agrees c (register ext conn w.shared).0
  Agrees-entered p c w i f h = elim (put_cases p c w h) [
    | inl (e, at_p) ↦ rw (← e) (Agrees-new w i f)
    | inr (e, k) ↦ others_agree p c w i f k
  ]

  entered_apart :
      (p q : ℕ) (c d : WsConnection) (w : World)
      → IsSound w
      → IsFresh conn w
      → put conn.address (some conn) w.live p ≡ some c
      → put conn.address (some conn) w.live q ≡ some d
      → p ≢ q
      → own c.app.id c.socket_id d.app.id d.socket_id ≡ false
  entered_apart p q c d w i f h k ne = elim (put_cases p c w h) [
    | inl (e, at_p) ↦ elim (put_cases q d w k) [
      | inl (g, at_q) ↦ absurd (ne (sym at_p ∙ at_q))
      | inr (g, l) ↦ rw (← e) (f.unique q d l)
    ]
    | inr (e, j) ↦ elim (put_cases q d w k) [
      | inl (g, at_q) ↦ rw (← g) (own_comm _ _ _ _ ∙ f.unique p c j)
      | inr (g, l) ↦ i.apart p q c d j l ne
    ]
  ]

  pub IsSound-enters : (w : World) → IsSound w → IsFresh conn w → IsSound (entered_world w)
  IsSound-enters w i f = record {
    mirrored = register-AllMirrored w.shared i.mirrored;
    placed = λ p c h. elim (put_cases p c w h) [
      | inl (e, at_p) ↦ ap (λ (d : WsConnection). d.address) (sym e) ∙ at_p
      | inr (e, k) ↦ i.placed p c k
    ];
    apart = λ p q c d. entered_apart p q c d w i f;
    agrees = λ p c. Agrees-entered p c w i f;
    owned = λ app_id s ch h.
        let o = i.owned app_id s ch (sym (in_channel-register app_id s ch w.shared) ∙ h) in
        (o.0, o.1, put_new o.0 o.1 w (unused_address o.0 o.1 w f.unused o.2) o.2, o.3);
  }
