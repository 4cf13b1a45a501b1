-- ===== src/Websocket/Task/Admission.antt =====
-- Which clients come into an app's table (`handle_socket` and the first steps of `run_connection` of
-- src/websocket/mod.rs).
use rushsocket.Base.{
  Str, str_eq, str_eq_iff, str_eq_refl, Bool, true, false, ◌||◌, ℕ, ltb, Option, none, some, ◌≡◌,
  ◌↔◌, ◌⊎◌, refl, arith, Option-cases, Bool-cases, inl, inr, ap, ◌∙◌, sym, if◌then◌else◌,
}
use rushsocket.Base.Assoc
use rushsocket.Base.Assoc.{lookup-insert}
use rushsocket.Base.Int.{ℤ, is_negative, to_nat}
use rushsocket.Externals.{Externals}
use rushsocket.App.{App}
use rushsocket.App.Manager.{StaticAppManager, find_by_key}
use rushsocket.Adapter.Local
use rushsocket.Adapter.Local.{LocalAdapter, get_or_create_ns}
use rushsocket.Adapter.Local.Apps.{ns-insert}
use rushsocket.Adapter.Namespace
use rushsocket.Adapter.Namespace.{Namespace}
use rushsocket.Websocket.Connection.{WsConnection}
use rushsocket.Websocket.Origins.{validate_origin}
use rushsocket.Websocket.Task.{Entry, dropped, turned_away, let_in, handle_socket, register, arrive}
use rushsocket.State.{AppState, is_closing}

-- The app has no limit on connections, or its table has fewer.
abbrev pub has_slot : App → LocalAdapter → Bool
has_slot app a =
    is_negative app.max_connections
    || ltb (get_or_create_ns app.id a).connection_count (to_nat app.max_connections)

-- A namespace that is full stays as it is.
try_add_socket-refused :
    (conn : WsConnection) (limit : ℤ) (ns : Namespace)
    → (Namespace.try_add_socket conn limit ns).1 ≡ false
    → (Namespace.try_add_socket conn limit ns).0 ≡ ns
unfolding Namespace.try_add_socket
try_add_socket-refused conn limit ns h = ground (arith, h)

try_add_socket-slot :
    (conn : WsConnection) (limit : ℤ) (ns : Namespace)
    → (Namespace.try_add_socket conn limit ns).1
      ≡ (is_negative limit || ltb ns.connection_count (to_nat limit))
unfolding Namespace.try_add_socket
try_add_socket-slot conn limit ns = ground arith

try_add_socket-listed :
    (conn : WsConnection) (limit : ℤ) (ns : Namespace)
    → (Namespace.try_add_socket conn limit ns).1 ≡ true
    → (Namespace.try_add_socket conn limit ns).0.sockets
      ≡ Assoc.insert conn.socket_id conn ns.sockets
unfolding Namespace.try_add_socket Namespace.add_socket
try_add_socket-listed conn limit ns h = ground (arith, h)

-- The app that a client is let in to.
abbrev admitted_to : Entry → Option App
admitted_to (let_in app) = some app
admitted_to _ = none

abbrev slot_of : Option App → LocalAdapter → Bool
slot_of none a = false
slot_of (some app) a = has_slot app a

handle_socket_iff :
    (ext : Externals) (manager : StaticAppManager) (memory_full : Bool) (key : Str)
    (origin : Option Str) (st : AppState) (app : App)
    → (admitted_to (handle_socket ext manager memory_full key origin st) ≡ some app) ↔ (
        (is_closing st ≡ false)
        × (find_by_key key manager ≡ some app)
        × (app.enabled ≡ true)
        × (validate_origin origin app.allowed_origins ≡ true)
        × (memory_full ≡ false))
unfolding handle_socket
handle_socket_iff ext manager memory_full key origin st app =
    elim (Option-cases (find_by_key key manager)) [
      | inl e ↦ rw e (ground arith)
      | inr (a, e) ↦ rw e (ground arith)
    ]

module _ (ext : Externals) (conn : WsConnection) (st : AppState) where
  register-slot : (register ext conn st).1 ≡ has_slot conn.app st.adapter
  unfolding register Local.try_add_socket
  register-slot = try_add_socket-slot conn conn.app.max_connections _

  register-refused :
      (j : Str)
      → (register ext conn st).1 ≡ false
      → get_or_create_ns j (register ext conn st).0.adapter ≡ get_or_create_ns j st.adapter
  unfolding register Local.try_add_socket
  register-refused j h = ns-insert conn.app.id j _ st.adapter ∙ kept
    where
      kept :
          (if str_eq conn.app.id j
            then (Namespace.try_add_socket conn conn.app.max_connections
                (get_or_create_ns conn.app.id st.adapter)).0
            else get_or_create_ns j st.adapter)
          ≡ get_or_create_ns j st.adapter
      kept = elim (Bool-cases (str_eq conn.app.id j)) [
        | inl e ↦
            rw (e, ← (str_eq_iff conn.app.id j).0 e)
              (try_add_socket-refused conn conn.app.max_connections _ h)
        | inr e ↦ rw e refl
      ]

  register-listed :
      (register ext conn st).1 ≡ true
      → (get_or_create_ns conn.app.id (register ext conn st).0.adapter).sockets
        ≡ Assoc.insert conn.socket_id conn (get_or_create_ns conn.app.id st.adapter).sockets
  unfolding register Local.try_add_socket
  register-listed h =
      rw
        (
          ns-insert conn.app.id conn.app.id
              (Namespace.try_add_socket conn conn.app.max_connections
                (get_or_create_ns conn.app.id st.adapter)).0
              st.adapter,
          str_eq_refl conn.app.id,
        )
        (try_add_socket-listed conn conn.app.max_connections
          (get_or_create_ns conn.app.id st.adapter) h)

module _ (ext : Externals) (manager : StaticAppManager) (memory_full : Bool) (key : Str)
    (origin : Option Str) (socket_id : Str) (address : ℕ) (st : AppState) where
  -- All that an app asks of a client.
  pub record MayEnter (app : App) : Type 0 where
    pub running : is_closing st ≡ false
    pub known : find_by_key key manager ≡ some app
    pub enabled : app.enabled ≡ true
    pub allowed : validate_origin origin app.allowed_origins ≡ true
    pub memory : memory_full ≡ false
    pub slot : has_slot app st.adapter ≡ true

  abbrev pub arrived : AppState × Bool
  arrived = arrive ext manager memory_full key origin socket_id address st

  -- The client's socket has been added to the app's table.
  pub record Enters : Type 0 where
    pub app : App
    pub may : MayEnter app
    pub added :
        (get_or_create_ns app.id arrived.0.adapter).sockets
        ≡ Assoc.insert socket_id
            (record { socket_id = socket_id; app = app; address = address })
            (get_or_create_ns app.id st.adapter).sockets

  -- No app lets the client in, and every app's tables are as they were.
  pub record StaysOut : Type 0 where
    pub barred : (app : App) → ¬ MayEnter app
    pub kept : (j : Str) → get_or_create_ns j arrived.0.adapter ≡ get_or_create_ns j st.adapter

  entry : Entry
  entry = handle_socket ext manager memory_full key origin st

  may_be_let_in : (app : App) → MayEnter app → admitted_to entry ≡ some app
  unfolding entry
  may_be_let_in app may =
      (handle_socket_iff ext manager memory_full key origin st app).1
        (may.running, may.known, may.enabled, may.allowed, may.memory)

  abbrev answer : Entry → AppState × Bool
  answer (let_in app) =
      register ext (record { socket_id = socket_id; app = app; address = address }) st
  answer _ = (st, false)

  arrived_as : (e : Entry) → entry ≡ e → arrived ≡ answer e
  unfolding arrive entry
  arrived_as dropped h = rw (h, arrive) refl
  arrived_as (turned_away message) h = rw (h, arrive) refl
  arrived_as (let_in app) h = rw (h, arrive) refl

  stays_out :
      ((app : App) → ¬ MayEnter app)
      → (e : Entry) → entry ≡ e
      → (answer e).1 ≡ false
      → ((j : Str) → get_or_create_ns j (answer e).0.adapter ≡ get_or_create_ns j st.adapter)
      → StaysOut
  stays_out closed e h r k = record {
    barred = closed;
    kept = λ j. ap (λ p. get_or_create_ns j p.0.adapter) (arrived_as e h) ∙ k j;
  }

  not_let_in : (e : Entry) → entry ≡ e → admitted_to e ≡ none → (app : App) → ¬ MayEnter app
  not_let_in e h n app may = ground (arith, sym (may_be_let_in app may) ∙ ap admitted_to h ∙ n)

  entered : (app : App) → entry ≡ let_in app → has_slot app st.adapter ≡ true → MayEnter app
  unfolding entry
  entered app h slot =
      let c = (handle_socket_iff ext manager memory_full key origin st app).0 (ap admitted_to h) in
      record { running = c.0; known = c.1; enabled = c.2; allowed = c.3; memory = c.4; slot = slot }

  full : (a : App) → entry ≡ let_in a → has_slot a st.adapter ≡ false → (app : App) → ¬ MayEnter app
  full a h slot app may =
      let same = ap (λ o. slot_of o st.adapter) (sym (may_be_let_in app may) ∙ ap admitted_to h) in
      ground (arith, slot, may.slot, same)

  arrival :
      (e : Entry) → entry ≡ e → ((arrived.1 ≡ true) × Enters) ⊎ ((arrived.1 ≡ false) × StaysOut)
  arrival dropped h = inr (
    ap (λ p. p.1) (arrived_as dropped h),
    stays_out (not_let_in dropped h refl) dropped h refl (λ j. refl),
  )
  arrival (turned_away message) h = inr (
    ap (λ p. p.1) (arrived_as (turned_away message) h),
    stays_out (not_let_in (turned_away message) h refl) (turned_away message) h refl (λ j. refl),
  )
  arrival (let_in app) h =
      let conn : WsConnection = record { socket_id = socket_id; app = app; address = address } in
      elim (Bool-cases (register ext conn st).1) [
        | inl r ↦ inl (
          ap (λ p. p.1) (arrived_as (let_in app) h) ∙ r,
          record {
            app = app;
            may = entered app h (sym (register-slot ext conn st) ∙ r);
            added =
                ap (λ p. (get_or_create_ns app.id p.0.adapter).sockets) (arrived_as (let_in app) h)
                ∙ register-listed ext conn st r;
          },
        )
        | inr r ↦ inr (
          ap (λ p. p.1) (arrived_as (let_in app) h) ∙ r,
          stays_out (full app h (sym (register-slot ext conn st) ∙ r)) (let_in app) h r
              (λ j. register-refused ext conn st j r),
        )
      ]

  -- Either the client is let in to an app and registered there, and then the server is not closing,
  -- the app is the one found for the key, it is enabled, it allows the origin, the memory is not full,
  -- the app has no limit on connections or fewer than that, and the app's table has the new socket in
  -- addition; or the client stays out, and then no app meets these conditions, and the tables of every
  -- app are as they were.
  pub arrive_outcome : ((arrived.1 ≡ true) × Enters) ⊎ ((arrived.1 ≡ false) × StaysOut)
  arrive_outcome = arrival entry refl
