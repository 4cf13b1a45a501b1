-- ===== src/Websocket/Events/ClientEvents/Outcome.antt =====
-- When a client event goes out (`handle` of src/websocket/events/client_event.rs).
use mathlib.Core.Option.{some-injective, none-ne-some}
use rushsocket.Base.{
  Str, bytes, ℕ, some, Bool-cases, Option-cases, sym, true, false, ◌*◌, inl, inr, arith, ◌≡◌, ◌≤◌,
  ◌⊎◌, str_eq, starts_with, length, ltb,
}
use rushsocket.Externals.{Externals, ClientMessage}
use rushsocket.Websocket.Connection.{WsConnection, is_subscribed}
use rushsocket.Websocket.Events.Payload.{estimate_json_size}
use rushsocket.Websocket.Events.ClientEvents.{
  refuse, forward, check_event, limit_rate, is_barred, handle,
}
use rushsocket.RateLimit.{LocalRateLimiter, check_client_event}
use rushsocket.State.{AppState, at}

-- All that the handler asks of an event for `channel`; `limiter` is the rate limiter once it has
-- counted the event.
pub record Allowed (ext : Externals) (conn : WsConnection) (msg : ClientMessage) (channel : Str)
    (limiter : LocalRateLimiter) (st : AppState) : Type 0 where
  pub enabled : str_eq conn.app.client_event_mode (bytes "none") ≡ false
  pub named : msg.channel ≡ some channel
  pub subscribed : is_subscribed channel (at conn st) ≡ true
  pub open_to : is_barred ext conn channel st ≡ false
  pub admitted :
      check_client_event ext st.rate_limiter conn.socket_id conn.app.max_client_events_per_sec
        st.now
      ≡ some (true, limiter)
  pub prefixed : starts_with msg.event (bytes "client-") ≡ true
  pub short : length msg.event ≤ conn.app.max_event_name_length
  pub small : estimate_json_size msg.payload ≤ conn.app.max_event_payload_in_kb * 1024

module _ (ext : Externals) (conn : WsConnection) (msg : ClientMessage) (st : AppState) where
  abbrev counted : LocalRateLimiter → AppState
  counted limiter = record st { rate_limiter = limiter }

  -- The event has gone out as `forward` sends it.
  abbrev pub Forwarded : AppState → Type 0
  Forwarded st' =
      (channel : Str) × (limiter : LocalRateLimiter) × Allowed ext conn msg channel limiter st
      × (st' ≡ forward ext conn msg channel (counted limiter))

  -- Nothing but an error to the client, and perhaps the count of the rate limiter.
  abbrev pub Refused : AppState → Type 0
  Refused st' =
      (reason : Str) × (code : ℕ) × (limiter : LocalRateLimiter) × (st'
        ≡ refuse ext conn reason code (counted limiter))

  refused :
      (reason : Str) (code : ℕ) (limiter : LocalRateLimiter) (st' : AppState)
      → some (refuse ext conn reason code (counted limiter)) ≡ some st'
      → Refused st'
  refused reason code limiter st' h = (reason, code, limiter, sym (some-injective _ st' h))

  -- The checks behind the rate limiter.
  checked :
      (channel : Str) (limiter : LocalRateLimiter) (st' : AppState)
      → (starts_with msg.event (bytes "client-") ≡ true
          → length msg.event ≤ conn.app.max_event_name_length
          → estimate_json_size msg.payload ≤ conn.app.max_event_payload_in_kb * 1024
          → Allowed ext conn msg channel limiter st)
      → some (check_event ext conn msg channel (counted limiter)) ≡ some st'
      → Forwarded st' ⊎ Refused st'
  unfolding check_event
  checked c limiter st' allowed h = elim (Bool-cases (starts_with msg.event (bytes "client-"))) [
    | inr e ↦ inr (refused _ _ limiter st' (rw (e, check_event) at h))
    | inl e ↦ elim (Bool-cases (ltb conn.app.max_event_name_length (length msg.event))) [
      | inl f ↦ inr (refused _ _ limiter st' (rw (e, f, check_event) at h))
      | inr f ↦
          elim (Bool-cases
            (ltb (conn.app.max_event_payload_in_kb * 1024) (estimate_json_size msg.payload))) [
              | inl g ↦ inr (refused _ _ limiter st' (rw (e, f, g, check_event) at h))
              | inr g ↦ inl (
                c,
                limiter,
                allowed e (ground arith) (ground arith),
                sym (some-injective _ st' (rw (e, f, g, check_event) at h)),
              )
            ]
    ]
  ]

  -- The rate limiter and what is behind it.
  limited :
      (channel : Str) (st' : AppState)
      → ((limiter : LocalRateLimiter)
          → check_client_event ext st.rate_limiter conn.socket_id conn.app.max_client_events_per_sec
              st.now
            ≡ some (true, limiter)
          → starts_with msg.event (bytes "client-") ≡ true
          → length msg.event ≤ conn.app.max_event_name_length
          → estimate_json_size msg.payload ≤ conn.app.max_event_payload_in_kb * 1024
          → Allowed ext conn msg channel limiter st)
      → limit_rate ext conn msg channel st ≡ some st'
      → Forwarded st' ⊎ Refused st'
  unfolding limit_rate
  limited c st' allowed h =
      elim (Option-cases (
        check_client_event ext st.rate_limiter conn.socket_id conn.app.max_client_events_per_sec
          st.now)) [
            | inl e ↦ absurd (none-ne-some _ (rw (e, limit_rate) at h))
            | inr ((false, limiter), e) ↦ inr (refused _ _ limiter st' (rw (e, limit_rate) at h))
            | inr ((true, limiter), e) ↦
                checked c limiter st' (allowed limiter e) (rw (e, limit_rate) at h)
          ]

  -- An event that does not make the rate limiter panic either goes out, and then all of `Allowed`
  -- holds, or has no effect but an error to the client and perhaps the rate limiter's count.
  pub handle_outcome :
      (st' : AppState) → handle ext conn msg st ≡ some st' → Forwarded st' ⊎ Refused st'
  unfolding handle limit_rate check_event
  handle_outcome st' h = elim (Bool-cases (str_eq conn.app.client_event_mode (bytes "none"))) [
    | inl e ↦ inr (refused _ _ st.rate_limiter st' (rw (e, handle) at h))
    | inr e ↦ elim (Option-cases msg.channel) [
      | inl f ↦ inr (refused _ _ st.rate_limiter st' (rw (e, f, handle) at h))
      | inr (c, f) ↦ elim (Bool-cases (is_subscribed c (at conn st))) [
        | inr g ↦ inr (refused _ _ st.rate_limiter st' (rw (e, f, g, handle) at h))
        | inl g ↦ elim (Bool-cases (is_barred ext conn c st)) [
          | inl k ↦ inr (refused _ _ st.rate_limiter st' (rw (e, f, g, k, handle) at h))
          | inr k ↦
              limited c st'
                (λ limiter l m n o. record {
                  enabled = e;
                  named = f;
                  subscribed = g;
                  open_to = k;
                  admitted = l;
                  prefixed = m;
                  short = n;
                  small = o;
                })
                (rw (e, f, g, k, handle) at h)
        ]
      ]
    ]
  ]

  -- An event of which all of `Allowed` holds goes out.
  pub handle-Allowed :
      (channel : Str) (limiter : LocalRateLimiter)
      → Allowed ext conn msg channel limiter st
      → handle ext conn msg st ≡ some (forward ext conn msg channel (counted limiter))
  unfolding handle limit_rate check_event
  handle-Allowed channel limiter a =
      ground (
        arith, a.enabled, a.named, a.subscribed, a.open_to, a.admitted, a.prefixed, a.short,
        a.small,
      )
