-- ===== src/Http/Answers.antt =====
-- What the reading routes (src/http/routes) leave alone, and what they say.
use mathlib.Core.Option.{some-injective}
use rushsocket.Base.{
  Str, bytes, true, ◌++◌, ◌≡◌, ◌↔◌, ◌⊎◌, inl, inr, Option, some, List, [], ◌∷◌, length, ltb, refl,
  sym, arith, str_eq_refl, Bool-cases, Option-cases,
}
use rushsocket.Base.Assoc
use rushsocket.Base.Assoc.{Assoc}
use rushsocket.Base.Sets
use rushsocket.Externals.{Externals}
use rushsocket.App.{App}
use rushsocket.App.Manager.{StaticAppManager}
use rushsocket.Protocol.Channels.{from_name, is_presence}
use rushsocket.Http.Requests.{Reply, Body, channel_info, users, connections}
use rushsocket.Http.Outcomes.{
  Rejected, refused-Rejected, Signed, when_signed-cases, when_admitted-cases,
}
use rushsocket.Http.Reads.{when_readable, get_channel, get_users, get_connections}
use rushsocket.RateLimit.{LocalRateLimiter, check_read_request}
use rushsocket.Adapter.Local
use rushsocket.Adapter.Local.{get_or_create_ns}
use rushsocket.Adapter.Namespace
use rushsocket.Adapter.Namespace.Membership.{subscribed}
use rushsocket.Adapter.Effects.{in_channel}
use rushsocket.State.{AppState}

module _ (ext : Externals) (manager : StaticAppManager) (app_id : Str) (params : Assoc Str) where
  -- The request has the signature of an app that is known, the limiter admits it, and the answer is
  -- that of the state, which it leaves alone but for the limiter.
  abbrev pub Answered : Str → (AppState → Body) → AppState → Reply × AppState → Type 0
  Answered path answer st r =
      (app : App) × (limiter : LocalRateLimiter) × Signed ext manager app_id params (bytes "GET")
        path app
      × (check_read_request ext st.rate_limiter app_id app.max_read_req_per_sec st.now
          ≡ some (true, limiter))
      × (r ≡ (record { status = 200; body = answer st }, record st { rate_limiter = limiter }))

  when_readable-cases :
      (path : Str) (next : AppState → Option (Reply × AppState)) (st : AppState)
      (r : Reply × AppState)
      → when_readable ext manager app_id params path next st ≡ some r
      → Rejected st r
        ⊎ ((app : App) × (limiter : LocalRateLimiter) × Signed ext manager app_id params
              (bytes "GET")
              path
              app
            × (check_read_request ext st.rate_limiter app_id app.max_read_req_per_sec st.now
                ≡ some (true, limiter))
            × (next (record st { rate_limiter = limiter }) ≡ some r))
  unfolding when_readable
  when_readable-cases path next st r h =
      elim (when_signed-cases ext manager app_id params (bytes "GET") path _ st r h) [
        | inl e ↦ inl e
        | inr (app, signed, k) ↦ elim (when_admitted-cases _ next st r k) [
          | inl e ↦ inl e
          | inr (limiter, admitted, m) ↦ inr (app, limiter, signed, admitted, m)
        ]
      ]

  abbrev pub channel_path : Str → Str
  channel_path channel = bytes "/apps/" ++ (app_id ++ (bytes "/channels/" ++ channel))

  -- A request for a channel that does not make the rate limiter panic is answered, if it is signed
  -- and admitted, with what the adapter says of the channel; otherwise the reply is an error. The
  -- state is left alone but for the limiter.
  pub get_channel_outcome :
      (channel : Str) (st : AppState) (r : Reply × AppState)
      → get_channel ext manager app_id params channel st ≡ some r
      → Rejected st r
        ⊎ Answered
            (channel_path channel)
            (λ (s : AppState). channel_info (Local.get_channel_info app_id channel s.adapter))
            st
            r
  unfolding get_channel
  get_channel_outcome channel st r h = elim (when_readable-cases (channel_path channel) _ st r h) [
    | inl e ↦ inl e
    | inr (app, limiter, signed, admitted, m) ↦
        inr (app, limiter, signed, admitted, sym (some-injective _ r m))
  ]

  -- The same for the number of connections.
  get_connections_outcome :
      (st : AppState) (r : Reply × AppState)
      → get_connections ext manager app_id params st ≡ some r
      → Rejected st r
        ⊎ Answered
            (bytes "/apps/" ++ (app_id ++ bytes "/connections"))
            (λ (s : AppState). connections (Local.get_connection_count app_id s.adapter))
            st
            r
  unfolding get_connections
  get_connections_outcome st r h = elim (when_readable-cases _ _ st r h) [
    | inl e ↦ inl e
    | inr (app, limiter, signed, admitted, m) ↦
        inr (app, limiter, signed, admitted, sym (some-injective _ r m))
  ]

  abbrev pub users_path : Str → Str
  users_path channel =
      bytes "/apps/" ++ (app_id ++ (bytes "/channels/" ++ (channel ++ bytes "/users")))

  -- A request for the users of a channel: the answer is the members, and only for a presence channel.
  get_users_outcome :
      (channel : Str) (st : AppState) (r : Reply × AppState)
      → get_users ext manager app_id params channel st ≡ some r
      → Rejected st r
        ⊎ ((is_presence (from_name channel) ≡ true)
            × Answered
                (users_path channel)
                (λ (s : AppState).
                  users (Assoc.keys (Local.get_presence_members app_id channel s.adapter)))
                st
                r)
  unfolding get_users
  get_users_outcome channel st r h = elim (when_readable-cases (users_path channel) _ st r h) [
    | inl e ↦ inl e
    | inr (app, limiter, signed, admitted, m) ↦
        elim (Bool-cases (is_presence (from_name channel))) [
          | inl e ↦ inr (e, (app, limiter, signed, admitted, sym (some-injective _ r (rw e at m))))
          | inr e ↦ inl (
              refused-Rejected 400 _ st (record st { rate_limiter = limiter }) r (ground arith) refl
                (rw e at m))
        ]
  ]

-- A list has an element exactly if its length is not 0.
length_iff :
    (xs : List Str) → (ltb 0 (length xs) ≡ true) ↔ ((s : Str) × (Sets.contains s xs ≡ true))
unfolding Sets.contains
length_iff [] = ((λ h. ground arith), (λ h. ground (arith, h.1)))
length_iff (x ∷ xs) = ((λ h. (x, ground (arith, str_eq_refl x))), (λ h. ground arith))

-- The adapter says that a channel is occupied exactly if some socket is in it.
pub get_channel_info-in_channel :
    (app_id channel : Str) (a : Local.LocalAdapter)
    → ((Local.get_channel_info app_id channel a).occupied ≡ true)
      ↔ ((s : Str) × (in_channel app_id s channel a ≡ true))
unfolding Local.get_channel_info in_channel subscribed get_or_create_ns Assoc.entry Assoc.lookup
    Sets.contains Namespace.get_channel_socket_count
get_channel_info-in_channel app_id channel a = elim (Option-cases (Assoc.lookup app_id a)) [
  | inl e ↦ rw (e, Local.get_channel_info, get_or_create_ns) (length_iff [])
  | inr (ns, e) ↦ elim (Option-cases (Assoc.lookup channel ns.channels)) [
    | inl f ↦
        rw
          (
            e, f, Local.get_channel_info, get_or_create_ns, Namespace.get_channel_socket_count,
            Assoc.entry,
          )
          (length_iff [])
    | inr (sids, f) ↦
        rw
          (
            e, f, Local.get_channel_info, get_or_create_ns, Namespace.get_channel_socket_count,
            Assoc.entry,
          )
          (length_iff sids)
  ]
]
