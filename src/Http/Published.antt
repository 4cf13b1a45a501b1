-- ===== src/Http/Published.antt =====
-- What the routes that publish events do (src/http/routes/events.rs and batch_events.rs).
use rushsocket.Base.{
  ◌∷◌, ltb-false, Str, bytes, Bool, true, false, ◌++◌, ◌*◌, ◌≡◌, ◌⊎◌, inl, inr, ◌≤◌, Option, some,
  List, [], length, ltb, any, refl, sym, ap, ◌∙◌, arith, Bool-cases, Option-cases,
}
use mathlib.Core.Option.{some-injective}
use rushsocket.Base.Assoc.{Assoc}
use rushsocket.Externals.{Externals}
use rushsocket.App.{App}
use rushsocket.App.Manager.{StaticAppManager}
use rushsocket.Http.Requests.{TriggerRequest, BatchEvent, Bodies, Counts, Reply}
use rushsocket.Http.Outcomes.{
  IsCounted, Rejected, refused-Rejected, Signed, when_signed-cases, Intact, when_intact-cases,
  when_admitted-cases,
}
use rushsocket.Http.Trigger.{
  publish, channels_of, publish_all, publish_batch, trigger_channels, trigger_events, when_accepted,
  trigger, trigger_batch,
}
use rushsocket.RateLimit.{LocalRateLimiter, check_backend_event}
use rushsocket.State.{AppState}

-- A body is read, or it is not.
parsed {ℓ} : {A : Type ℓ} (x : A ⊎ Str) → ((a : A) × (x ≡ inl a)) ⊎ ((e : Str) × (x ≡ inr e))
parsed (inl a) = inl (a, refl)
parsed (inr e) = inr (e, refl)

module _ (ext : Externals) (bodies : Bodies) (manager : StaticAppManager) (app_id : Str)
    (params : Assoc Str) (body : Str) where
  abbrev pub path_of : Str → Str
  path_of route = bytes "/apps/" ++ (app_id ++ (bytes "/" ++ route))

  -- The request passes the checks before its body is read, for the app and with the limiter left.
  abbrev pub Accepted : Str → AppState → App → LocalRateLimiter → Type 0
  Accepted route st app limiter =
      Signed ext manager app_id params (bytes "POST") (path_of route) app
      × Intact ext manager app_id params bodies.body_md5 body
      × (check_backend_event ext st.rate_limiter app_id app.max_backend_events_per_sec st.now
          ≡ some (true, limiter))

  when_accepted-cases :
      (route : Str) (next : App → AppState → Option (Reply × AppState)) (st : AppState)
      (r : Reply × AppState)
      → when_accepted ext bodies manager app_id params body route next st ≡ some r
      → Rejected st r
        ⊎ ((app : App) × (limiter : LocalRateLimiter) × Accepted route st app limiter
            × (next app (record st { rate_limiter = limiter }) ≡ some r))
  unfolding when_accepted
  when_accepted-cases route next st r h =
      elim (when_signed-cases ext manager app_id params (bytes "POST") (path_of route) _ st r h) [
        | inl e ↦ inl e
        | inr (app, signed, k) ↦
            elim (when_intact-cases ext manager app_id params bodies.body_md5 body _ st r k) [
              | inl e ↦ inl e
              | inr (intact, l) ↦ elim (when_admitted-cases _ (next app) st r l) [
                | inl e ↦ inl e
                | inr (limiter, admitted, m) ↦ inr (app, limiter, (signed, intact, admitted), m)
              ]
            ]
      ]

  -- The event goes out to each channel in turn.
  unfoldable pub send_all : App → TriggerRequest → List Str → AppState → AppState
  send_all app req [] st = st
  send_all app req (channel ∷ channels) st =
      send_all app req channels
        (publish ext app app_id req.name req.payload channel req.socket_id st)

  publish_all-send_all :
      (app : App) (req : TriggerRequest) (subs users : Bool) (channels : List Str)
      (info : Assoc Counts) (st : AppState)
      → (publish_all ext app app_id req subs users channels info st).1
        ≡ send_all app req channels st
  unfolding publish_all send_all
  publish_all-send_all app req subs users [] info st = refl
  publish_all-send_all app req subs users (channel ∷ channels) info st =
      publish_all-send_all app req subs users channels _ _

  abbrev pub WithinLimits : App → TriggerRequest → List Str → Type 0
  WithinLimits app req channels =
      (length channels ≤ app.max_event_channels_at_once)
      × (length req.name ≤ app.max_event_name_length)
      × (length req.payload ≤ app.max_event_payload_in_kb * 1024)

  trigger_channels-cases :
      (app : App) (req : TriggerRequest) (first st : AppState) (r : Reply × AppState)
      → IsCounted first st
      → trigger_channels ext app app_id params req st ≡ some r
      → Rejected first r
        ⊎ ((channels : List Str) × (channels_of ext req ≡ some channels)
            × WithinLimits app req channels
            × (r.1 ≡ send_all app req channels st)
            × (r.0.status ≡ 200))
  unfolding trigger_channels
  trigger_channels-cases app req first st r c h = elim (Option-cases (channels_of ext req)) [
    | inl e ↦
        inl (refused-Rejected 400 _ first st r (ground arith) c (rw (e, trigger_channels) at h))
    | inr (channels, e) ↦ elim (Bool-cases (ltb app.max_event_channels_at_once (length channels))) [
      | inl f ↦
          inl
            (refused-Rejected 400 _ first st r (ground arith) c (rw (e, f, trigger_channels) at h))
      | inr f ↦ elim (Bool-cases (ltb app.max_event_name_length (length req.name))) [
        | inl g ↦ inl (
            refused-Rejected 400 _ first st r (ground arith) c
              (rw (e, f, g, trigger_channels) at h))
        | inr g ↦
            elim (Bool-cases (ltb (app.max_event_payload_in_kb * 1024) (length req.payload))) [
              | inl k ↦ inl (
                  refused-Rejected 413 _ first st r (ground arith) c
                    (rw (e, f, g, k, trigger_channels) at h))
              | inr k ↦
                  let m = some-injective _ r (rw (e, f, g, k, trigger_channels) at h) in
                  inr (
                    channels,
                    e,
                    (ltb-false _ _ f, ltb-false _ _ g, ltb-false _ _ k),
                    ap (λ (x : Reply × AppState). x.1) (sym m)
                        ∙ publish_all-send_all app req _ _ channels [] st,
                    ap (λ (x : Reply × AppState). x.0.status) (sym m),
                  )
            ]
      ]
    ]
  ]

  -- The request was accepted and read, and its event went out to its channels.
  abbrev pub Triggered : AppState → Reply × AppState → Type 0
  Triggered st r =
      (app : App) × (limiter : LocalRateLimiter) × (req : TriggerRequest) × (channels : List Str)
      × Accepted (bytes "events") st app limiter
      × (bodies.parse_trigger body ≡ inl req)
      × (channels_of ext req ≡ some channels)
      × WithinLimits app req channels
      × (r.1 ≡ send_all app req channels (record st { rate_limiter = limiter }))
      × (r.0.status ≡ 200)

  -- A request to `trigger` that does not make the rate limiter panic either has an error for a reply
  -- and changes nothing but what the limiter counts, or its app is known, its signature is that of
  -- the app's secret, its body has the MD5 sum it gives, the limiter admits it, and it keeps the
  -- app's limits; then the reply is 200 and the event goes out to each of its channels, in order.
  pub trigger_outcome :
      (st : AppState) (r : Reply × AppState)
      → trigger ext bodies manager app_id params body st ≡ some r
      → Rejected st r ⊎ Triggered st r
  unfolding trigger
  trigger_outcome st r h = elim (when_accepted-cases (bytes "events") _ st r h) [
    | inl e ↦ inl e
    | inr (app, limiter, accepted, k) ↦ elim (parsed (bodies.parse_trigger body)) [
      | inr (e, f) ↦ inl (
          refused-Rejected 400 _ st (record st { rate_limiter = limiter }) r (ground arith) refl
            (rw f at k))
      | inl (req, f) ↦ elim (trigger_channels-cases app req st _ r refl (rw f at k)) [
        | inl e ↦ inl e
        | inr (channels, e, limits, sent, ok) ↦
            inr (app, limiter, req, channels, accepted, f, e, limits, sent, ok)
      ]
    ]
  ]

  -- As for one request: every event of the batch goes out, in order.
  unfoldable pub send_batch : App → List BatchEvent → AppState → AppState
  send_batch app [] st = st
  send_batch app (e ∷ events) st =
      send_batch app events (publish ext app app_id e.name e.payload e.channel e.socket_id st)

  publish_batch-send_batch :
      (app : App) (global_info : Option Str) (events : List BatchEvent) (has_any : Bool)
      (results : List Counts) (st : AppState)
      → (publish_batch ext app app_id global_info events has_any results st).2
        ≡ send_batch app events st
  unfolding publish_batch send_batch
  publish_batch-send_batch app global_info [] has_any results st = refl
  publish_batch-send_batch app global_info (e ∷ events) has_any results st =
      publish_batch-send_batch app global_info events _ _ _

  abbrev pub Batched : AppState → Reply × AppState → Type 0
  Batched st r =
      (app : App) × (limiter : LocalRateLimiter) × (events : List BatchEvent) × Accepted
        (bytes "batch_events") st app limiter
      × (bodies.parse_batch body ≡ inl events)
      × (length events ≤ app.max_event_batch_size)
      × (any (λ (e : BatchEvent). ltb (app.max_event_payload_in_kb * 1024) (length e.payload))
            events
          ≡ false)
      × (r.1 ≡ send_batch app events (record st { rate_limiter = limiter }))
      × (r.0.status ≡ 200)

  trigger_events-cases :
      (app : App) (limiter : LocalRateLimiter) (events : List BatchEvent) (st : AppState)
      (r : Reply × AppState)
      → Accepted (bytes "batch_events") st app limiter
      → bodies.parse_batch body ≡ inl events
      → trigger_events ext app app_id params events (record st { rate_limiter = limiter }) ≡ some r
      → Rejected st r ⊎ Batched st r
  unfolding trigger_events
  trigger_events-cases app limiter events st r accepted e h =
      elim (Bool-cases (ltb app.max_event_batch_size (length events))) [
        | inl f ↦ inl (
            refused-Rejected 400 _ st (record st { rate_limiter = limiter }) r (ground arith) refl
              (rw (f, trigger_events) at h))
        | inr f ↦
            elim (Bool-cases (
              any (λ (e : BatchEvent). ltb (app.max_event_payload_in_kb * 1024) (length e.payload))
                events)) [
                  | inl g ↦ inl (
                      refused-Rejected 413 _ st (record st { rate_limiter = limiter }) r
                        (ground arith) refl (rw (f, g, trigger_events) at h))
                  | inr g ↦
                      let m = some-injective _ r (rw (f, g, trigger_events) at h) in
                      inr (
                        app,
                        limiter,
                        events,
                        accepted,
                        e,
                        ltb-false _ _ f,
                        g,
                        ap (λ (x : Reply × AppState). x.1) (sym m)
                            ∙ publish_batch-send_batch app _ events false [] _,
                        ap (λ (x : Reply × AppState). x.0.status) (sym m),
                      )
                ]
      ]

  -- A request to `trigger_batch` that does not make the rate limiter panic either has an error for a
  -- reply and changes nothing but what the limiter counts, so that no event of the batch goes out; or
  -- its app is known, its signature is that of the app's secret, its body has the MD5 sum it gives, the
  -- limiter admits it, there are no more events than the app allows, no payload is larger than it
  -- allows (the length of the names is not checked), the reply is 200, and every event goes out, in
  -- order.
  pub trigger_batch_outcome :
      (st : AppState) (r : Reply × AppState)
      → trigger_batch ext bodies manager app_id params body st ≡ some r
      → Rejected st r ⊎ Batched st r
  unfolding trigger_batch
  trigger_batch_outcome st r h = elim (when_accepted-cases (bytes "batch_events") _ st r h) [
    | inl e ↦ inl e
    | inr (app, limiter, accepted, k) ↦ elim (parsed (bodies.parse_batch body)) [
      | inr (e, f) ↦ inl (
          refused-Rejected 400 _ st (record st { rate_limiter = limiter }) r (ground arith) refl
            (rw f at k))
      | inl (events, f) ↦ trigger_events-cases app limiter events st r accepted f (rw f at k)
    ]
  ]
