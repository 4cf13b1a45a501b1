-- ===== src/Websocket/Events/Signin/Outcome.antt =====
-- What a sign-in message does (`handle` of src/websocket/events/signin.rs).
use rushsocket.Base.{
  Str, bytes, some, true, not, Bool-cases, Option-cases, inl, inr, refl, arith, ◌≡◌, ◌⊎◌, ◌>>=◌,
}
use rushsocket.Auth.{verify_signin_auth}
use rushsocket.Externals.{Externals, ClientMessage}
use rushsocket.Protocol.Json.{Json, Fields, get}
use rushsocket.Websocket.Connection.{WsConnection}
use rushsocket.Websocket.Events.Payload.{extract_data, text_field}
use rushsocket.Websocket.Events.Subscribe.{id_text}
use rushsocket.Websocket.Events.Signin.{refuse, accept, verified, handle}
use rushsocket.State.{AppState}

-- The message has user data, of which `user_id` is the id, and a verified token for them.
pub record SignsIn (ext : Externals) (conn : WsConnection) (msg : ClientMessage) (user_id : Str)
    (user_data : Json) (text : Str) : Type 0 where
  pub enabled : conn.app.enable_user_authentication ≡ true
  pub obj : Fields
  pub held : extract_data ext msg ≡ some obj
  pub auth_str : Str
  pub given : text_field (bytes "auth") obj ≡ some auth_str
  pub named : text_field (bytes "user_data") obj ≡ some text
  pub checked :
      verify_signin_auth ext.hex_hmac conn.app.key conn.app.secret conn.socket_id text auth_str
      ≡ true
  pub parsed : ext.parse text ≡ some user_data
  pub identified : (get (bytes "id") user_data >>= id_text) ≡ some user_id

module _ (ext : Externals) (conn : WsConnection) (msg : ClientMessage) (st : AppState) where
  abbrev pub Accepted : AppState → Type 0
  Accepted st' =
      (user_id : Str) × (user_data : Json) × (text : Str) × SignsIn ext conn msg user_id user_data
        text
      × (st' ≡ accept ext conn user_id user_data text st)

  abbrev pub Rejected : AppState → Type 0
  Rejected st' = (reason : Str) × (st' ≡ refuse ext conn reason st)

  -- A sign-in message is accepted for the user id in its user data, and then sign-in is enabled and
  -- the token for these data is verified, or it has no effect but an error to the client.
  pub signin_outcome : Accepted (handle ext conn msg st) ⊎ Rejected (handle ext conn msg st)
  unfolding handle verified
  signin_outcome = elim (Bool-cases (not conn.app.enable_user_authentication)) [
    | inl e ↦ rw (e, handle) (inr (_, refl))
    | inr e ↦ elim (Option-cases (extract_data ext msg)) [
      | inl f ↦ rw (e, f, handle) (inr (_, refl))
      | inr (obj, f) ↦ elim (Option-cases (text_field (bytes "auth") obj)) [
        | inl g ↦ rw (e, f, g, handle) (inr (_, refl))
        | inr (token, g) ↦ elim (Option-cases (text_field (bytes "user_data") obj)) [
          | inl h ↦ rw (e, f, g, h, handle) (inr (_, refl))
          | inr (text, h) ↦
              elim (Bool-cases (
                verify_signin_auth ext.hex_hmac conn.app.key conn.app.secret conn.socket_id text
                  token)) [
                    | inr k ↦ rw (e, f, g, h, k, handle) (inr (_, refl))
                    | inl k ↦ elim (Option-cases (ext.parse text)) [
                      | inl l ↦ rw (e, f, g, h, k, l, handle, verified) (inr (_, refl))
                      | inr (v, l) ↦ elim (Option-cases (get (bytes "id") v >>= id_text)) [
                        | inl m ↦ rw (e, f, g, h, k, l, m, handle, verified) (inr (_, refl))
                        | inr (u, m) ↦
                            rw (e, f, g, h, k, l, m, handle, verified)
                              (inl (
                                u,
                                v,
                                text,
                                record {
                                  enabled = ground (arith, e);
                                  obj = obj;
                                  held = f;
                                  auth_str = token;
                                  given = g;
                                  named = h;
                                  checked = k;
                                  parsed = l;
                                  identified = m;
                                },
                                refl,
                              ))
                      ]
                    ]
                  ]
        ]
      ]
    ]
  ]
