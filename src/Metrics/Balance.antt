-- ===== src/Metrics/Balance.antt =====
-- What the counters of src/metrics/mod.rs come to over a history of calls.
use rushsocket.Base.{
  Str, str_eq, str_eq_iff, Bool, true, ℕ, ◌&&◌, ◌||◌, is_some, ◌+◌, ◌%◌, Option, none, some, List,
  [], ◌∷◌, ◌≡◌, refl, sym, ap, ◌∙◌, arith, Bool-cases, Option-cases, inl, inr, if◌then◌else◌,
}
use rushsocket.Base.Assoc
use rushsocket.Base.Assoc.{Assoc, lookup-insert}
use rushsocket.Metrics.{
  range, fetch_add, AppMetrics, Metrics, on_app, app_or_new, app_connects, app_disconnects,
  on_connect, on_disconnect, on_ws_message_received, on_ws_message_sent, on_http_call,
  get_connected_for_app,
}

pub data Call : Type 0 where
  connects disconnects : Str → Call
  received sent : Str → ℕ → Call
  http : ℕ → ℕ → Call

unfoldable pub call : Call → Metrics → Metrics
call (connects app_id) m = on_connect app_id m
call (disconnects app_id) m = on_disconnect app_id m
call (received app_id size) m = on_ws_message_received app_id size m
call (sent app_id size) m = on_ws_message_sent app_id size m
call (http bytes_in bytes_out) m = on_http_call bytes_in bytes_out m

unfoldable pub run : List Call → Metrics → Metrics
run [] m = m
run (c ∷ calls) m = run calls (call c m)

-- The connections of an app in the history.
unfoldable pub ups : Str → List Call → ℕ
ups app_id [] = 0
ups app_id (connects j ∷ calls) = (if str_eq j app_id then 1 else 0) + ups app_id calls
ups app_id (_ ∷ calls) = ups app_id calls

-- The disconnections of an app, from its first connection on unless it is known before.
unfoldable pub downs : Str → Bool → List Call → ℕ
downs app_id known [] = 0
downs app_id known (connects j ∷ calls) = downs app_id (str_eq j app_id || known) calls
downs app_id known (disconnects j ∷ calls) =
    (if str_eq j app_id && known then 1 else 0) + downs app_id known calls
downs app_id known (_ ∷ calls) = downs app_id known calls

abbrev pub is_known : Str → Metrics → Bool
is_known app_id m = is_some (Assoc.lookup app_id m.per_app)

-- One app under two equal keys.
looked_up :
    (app_id j : Str) (per_app : Assoc AppMetrics) (o : Option AppMetrics)
    → str_eq j app_id ≡ true
    → Assoc.lookup j per_app ≡ o
    → Assoc.lookup app_id per_app ≡ o
looked_up app_id j per_app o s e =
    ap (λ k. Assoc.lookup k per_app) (sym ((str_eq_iff j app_id).0 s)) ∙ e

app_or_new-insert :
    (app_id j : Str) (x : AppMetrics) (per_app : Assoc AppMetrics)
    → app_or_new app_id (Assoc.insert j x per_app)
      ≡ (if str_eq j app_id then x else app_or_new app_id per_app)
unfolding app_or_new
app_or_new-insert app_id j x per_app = elim (Bool-cases (str_eq j app_id)) [
  | inl s ↦ rw (app_or_new, lookup-insert j app_id x per_app, s) refl
  | inr s ↦ rw (app_or_new, lookup-insert j app_id x per_app, s) refl
]

-- What a call does to the connections of an app.
connected-on_connect :
    (app_id j : Str) (m : Metrics)
    → get_connected_for_app app_id (on_connect j m) ≡ (
        if str_eq j app_id
        then fetch_add (get_connected_for_app app_id m) 1
        else get_connected_for_app app_id m)
unfolding get_connected_for_app on_connect
connected-on_connect app_id j m =
    ap (λ (a : AppMetrics). a.connected)
      (app_or_new-insert app_id j (app_connects (app_or_new j m.per_app)) m.per_app)
    ∙ elim (Bool-cases (str_eq j app_id)) [
      | inl s ↦
          rw s
            (ap (λ k. fetch_add (app_or_new k m.per_app).connected 1) ((str_eq_iff j app_id).0 s))
      | inr s ↦ rw s refl
    ]

is_known-on_connect :
    (app_id j : Str) (m : Metrics)
    → is_known app_id (on_connect j m) ≡ (str_eq j app_id || is_known app_id m)
unfolding on_connect
is_known-on_connect app_id j m = elim (Bool-cases (str_eq j app_id)) [
  | inl s ↦ rw (lookup-insert j app_id (app_connects (app_or_new j m.per_app)) m.per_app, s) refl
  | inr s ↦ rw (lookup-insert j app_id (app_connects (app_or_new j m.per_app)) m.per_app, s) refl
]

-- A change of an app that is known.
connected-on_app :
    (app_id j : Str) (f : AppMetrics → AppMetrics) (per_app : Assoc AppMetrics)
    → (app_or_new app_id (on_app j f per_app)).connected ≡ (
        if str_eq j app_id && is_some (Assoc.lookup app_id per_app)
        then (f (app_or_new app_id per_app)).connected
        else (app_or_new app_id per_app).connected)
unfolding app_or_new on_app
connected-on_app app_id j f per_app = elim (Option-cases (Assoc.lookup j per_app)) [
  | inl e ↦ elim (Bool-cases (str_eq j app_id)) [
    | inl s ↦ rw (e, on_app, s, looked_up app_id j per_app none s e) refl
    | inr s ↦ rw (e, on_app, s) refl
  ]
  | inr (x, e) ↦ elim (Bool-cases (str_eq j app_id)) [
    | inl s ↦
        rw
          (
            e,
            on_app,
            app_or_new-insert app_id j (f x) per_app,
            s,
            app_or_new,
            looked_up app_id j per_app (some x) s e,
          )
          refl
    | inr s ↦ rw (e, on_app, app_or_new-insert app_id j (f x) per_app, s) refl
  ]
]

is_known-on_app :
    (app_id j : Str) (f : AppMetrics → AppMetrics) (per_app : Assoc AppMetrics)
    → is_some (Assoc.lookup app_id (on_app j f per_app)) ≡ is_some (Assoc.lookup app_id per_app)
unfolding on_app
is_known-on_app app_id j f per_app = elim (Option-cases (Assoc.lookup j per_app)) [
  | inl e ↦ rw (e, on_app) refl
  | inr (x, e) ↦ elim (Bool-cases (str_eq j app_id)) [
    | inl s ↦
        rw
          (
            e,
            on_app,
            lookup-insert j app_id (f x) per_app,
            s,
            looked_up app_id j per_app (some x) s e,
          )
          refl
    | inr s ↦ rw (e, on_app, lookup-insert j app_id (f x) per_app, s) refl
  ]
]

-- A call that leaves the connections of the app alone.
run-quiet :
    (app_id : Str) (calls : List Call) (m m' : Metrics)
    → get_connected_for_app app_id m' ≡ get_connected_for_app app_id m
    → is_known app_id m' ≡ is_known app_id m
    → (get_connected_for_app app_id (run calls m') + downs app_id (is_known app_id m') calls)
        % range
      ≡ (get_connected_for_app app_id m' + ups app_id calls) % range
    → (get_connected_for_app app_id (run calls m') + downs app_id (is_known app_id m) calls) % range
      ≡ (get_connected_for_app app_id m + ups app_id calls) % range
run-quiet app_id calls m m' c k h = rw (← c, ← k) h

-- The connections of an app at the end of a history are those at its start and those that came, less
-- those that went, up to the wrap-around of the counter; the calls for other apps and for messages
-- do not count, nor does a disconnection of an app that was never connected to.
pub run-get_connected_for_app :
    (app_id : Str) (calls : List Call) (m : Metrics)
    → (get_connected_for_app app_id (run calls m) + downs app_id (is_known app_id m) calls) % range
      ≡ (get_connected_for_app app_id m + ups app_id calls) % range
unfolding run ups downs call get_connected_for_app on_disconnect on_ws_message_received
    on_ws_message_sent on_http_call
run-get_connected_for_app app_id [] m = refl
run-get_connected_for_app app_id (connects j ∷ calls) m = rw (← is_known-on_connect app_id j m) (
    run-get_connected_for_app app_id calls (on_connect j m)
    ∙ ground (arith, connected-on_connect app_id j m))
run-get_connected_for_app app_id (disconnects j ∷ calls) m = ground (
  arith,
  rw (is_known-on_app app_id j app_disconnects m.per_app) at
      (run-get_connected_for_app app_id calls (on_disconnect j m)),
  connected-on_app app_id j app_disconnects m.per_app,
)
run-get_connected_for_app app_id (received j size ∷ calls) m =
    run-quiet app_id calls m (on_ws_message_received j size m)
      (ground (
        arith,
        connected-on_app app_id j
            (λ (a : AppMetrics). record a {
              ws_messages_received = fetch_add a.ws_messages_received 1;
            })
            m.per_app,
      ))
      (is_known-on_app app_id j _ m.per_app)
      (run-get_connected_for_app app_id calls (on_ws_message_received j size m))
run-get_connected_for_app app_id (sent j size ∷ calls) m =
    run-quiet app_id calls m (on_ws_message_sent j size m)
      (ground (
        arith,
        connected-on_app app_id j
            (λ (a : AppMetrics). record a { ws_messages_sent = fetch_add a.ws_messages_sent 1 })
            m.per_app,
      ))
      (is_known-on_app app_id j _ m.per_app)
      (run-get_connected_for_app app_id calls (on_ws_message_sent j size m))
run-get_connected_for_app app_id (http i o ∷ calls) m =
    run-quiet app_id calls m (on_http_call i o m) refl refl
      (run-get_connected_for_app app_id calls (on_http_call i o m))
