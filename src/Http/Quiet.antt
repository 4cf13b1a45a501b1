-- ===== src/Http/Quiet.antt =====
-- What the routes that publish and terminate (src/http/routes) leave alone: the adapter, and the
-- channels that the connections list.
use rushsocket.Base.{Str, ℕ, Option, some, List, [], ◌∷◌, ◌≡◌, refl, ap, ◌∙◌, inl, inr, arith}
use rushsocket.Base.Assoc.{Assoc}
use rushsocket.Externals.{Externals}
use rushsocket.App.{App}
use rushsocket.App.Manager.{StaticAppManager}
use rushsocket.Websocket.Connection.{WsConnection, Heap, write, send_raw}
use rushsocket.Http.Requests.{TriggerRequest, BatchEvent, Bodies, Reply}
use rushsocket.Http.Outcomes.{IsCounted}
use rushsocket.Http.Trigger.{publish, trigger, trigger_batch}
use rushsocket.Http.Published.{send_all, send_batch, trigger_outcome, trigger_batch_outcome}
use rushsocket.Http.Terminate.{terminate, terminate_outcome}
use rushsocket.Adapter.Local
use rushsocket.State.{AppState}
use rushsocket.State.Listed.{listed, listed-send_to_channel}

pub record IsQuiet (st st' : AppState) : Type 0 where
  pub adapter : st'.adapter ≡ st.adapter
  pub lists : (q : ℕ) → listed q st' ≡ listed q st

IsQuiet-trans : (a b c : AppState) → IsQuiet a b → IsQuiet b c → IsQuiet a c
IsQuiet-trans a b c h k = record {
  adapter = k.adapter ∙ h.adapter;
  lists = λ q. k.lists q ∙ h.lists q;
}

IsQuiet-counted : (st st' : AppState) → IsCounted st st' → IsQuiet st st'
IsQuiet-counted st st' h = record {
  adapter = ap (λ (s : AppState). s.adapter) h;
  lists = λ q. ap (λ (s : AppState). listed q s) h;
}

module _ (ext : Externals) where
  publish-IsQuiet :
      (app : App) (app_id name payload channel : Str) (socket_id : Option Str) (st : AppState)
      → IsQuiet st (publish ext app app_id name payload channel socket_id st)
  unfolding publish
  publish-IsQuiet app app_id name payload channel socket_id st = record {
    adapter = refl;
    lists = λ q. listed-send_to_channel ext app_id channel _ socket_id st.adapter st.heap q;
  }

  module _ (bodies : Bodies) (manager : StaticAppManager) (app_id : Str) (params : Assoc Str)
      (body : Str) where
    send_all-IsQuiet :
        (app : App) (req : TriggerRequest) (channels : List Str) (st : AppState)
        → IsQuiet st (send_all ext bodies manager app_id params body app req channels st)
    unfolding send_all
    send_all-IsQuiet app req [] st = record { adapter = refl; lists = λ q. refl }
    send_all-IsQuiet app req (channel ∷ channels) st =
        IsQuiet-trans st _ _
          (publish-IsQuiet app app_id req.name req.payload channel req.socket_id st)
          (send_all-IsQuiet app req channels _)

    send_batch-IsQuiet :
        (app : App) (events : List BatchEvent) (st : AppState)
        → IsQuiet st (send_batch ext bodies manager app_id params body app events st)
    unfolding send_batch
    send_batch-IsQuiet app [] st = record { adapter = refl; lists = λ q. refl }
    send_batch-IsQuiet app (e ∷ events) st =
        IsQuiet-trans st _ _ (publish-IsQuiet app app_id e.name e.payload e.channel e.socket_id st)
          (send_batch-IsQuiet app events _)

    pub trigger-IsQuiet :
        (st : AppState) (r : Reply × AppState)
        → trigger ext bodies manager app_id params body st ≡ some r
        → IsQuiet st r.1
    trigger-IsQuiet st r h = elim (trigger_outcome ext bodies manager app_id params body st r h) [
      | inl e ↦ IsQuiet-counted st r.1 e.1
      | inr (app, limiter, req, channels, accepted, f, e, limits, sent, ok) ↦ rw sent (
          IsQuiet-trans st (record st { rate_limiter = limiter }) _ (IsQuiet-counted st _ refl)
            (send_all-IsQuiet app req channels _))
    ]

    pub trigger_batch-IsQuiet :
        (st : AppState) (r : Reply × AppState)
        → trigger_batch ext bodies manager app_id params body st ≡ some r
        → IsQuiet st r.1
    trigger_batch-IsQuiet st r h =
        elim (trigger_batch_outcome ext bodies manager app_id params body st r h) [
          | inl e ↦ IsQuiet-counted st r.1 e.1
          | inr (app, limiter, events, accepted, f, e, limits, sent, ok) ↦ rw sent (
              IsQuiet-trans st (record st { rate_limiter = limiter }) _ (IsQuiet-counted st _ refl)
                (send_batch-IsQuiet app events _))
        ]

  listed-terminate_each :
      (conns : List WsConnection) (heap : Heap) (q : ℕ)
      → (Local.terminate_each ext conns heap q).subscribed_channels ≡ (heap q).subscribed_channels
  unfolding Local.terminate_each write send_raw
  listed-terminate_each [] heap q = refl
  listed-terminate_each (conn ∷ rest) heap q = listed-terminate_each rest _ q ∙ ground arith

  pub terminate-IsQuiet :
      (manager : StaticAppManager) (app_id user_id : Str) (params : Assoc Str) (st : AppState)
      → IsQuiet st (terminate ext manager app_id user_id params st).1
  unfolding Local.terminate_user_connections
  terminate-IsQuiet manager app_id user_id params st =
      elim (terminate_outcome ext manager app_id user_id params st) [
        | inl (signed, e) ↦ rw e (record {
          adapter = refl;
          lists = λ q.
              listed-terminate_each (Local.get_sockets_for_user app_id user_id st.adapter) st.heap
                q;
        })
        | inr (reason, inl e) ↦ rw e (record { adapter = refl; lists = λ q. refl })
        | inr (reason, inr e) ↦ rw e (record { adapter = refl; lists = λ q. refl })
      ]
