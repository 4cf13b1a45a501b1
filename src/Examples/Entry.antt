-- ===== src/Examples/Entry.antt =====
-- Origins, apps, sign-in and signed requests (src/websocket/mod.rs, src/app/static_manager.rs,
-- src/websocket/events/signin.rs, src/http) on examples.
use rushsocket.Base.{Str, bytes, some, true, List, [], ◌∷◌, ◌≡◌, ◌⊎◌, ◌↔◌}
use rushsocket.App.{AppConfig, default_app_config}
use rushsocket.App.Manager
use rushsocket.App.Manager.{find_by_key, find_by_id, last_with, find_last}
use rushsocket.Websocket.Origins.{validate_origin, validate_origin_iff, Listed}
use rushsocket.Base.Assoc.{Assoc}
use rushsocket.App.Manager.{StaticAppManager}
use rushsocket.Http.Terminate.{terminate, terminated, terminate_outcome, IsSigned, ok, failed}
use rushsocket.Examples.{alice, ext, subscribe_message, state_of}
use rushsocket.Websocket.Events.Signin
use rushsocket.Websocket.Events.Signin.Outcome.{Accepted, Rejected, signin_outcome}

abbrev origins : List Str
origins = bytes "https://a.example" ∷ bytes "https://b.example" ∷ []

validate_origin_iff_example :
    (validate_origin (some (bytes "https://B.example")) origins ≡ true) ↔ (
      (origins ≡ []) ⊎ ((o : Str) × (some (bytes "https://B.example") ≡ some o) × Listed o origins))
validate_origin_iff_example = validate_origin_iff (some (bytes "https://B.example")) origins

abbrev other_app : AppConfig
other_app = record default_app_config { id = bytes "other"; secret = bytes "s" }

abbrev apps : List AppConfig
apps = default_app_config ∷ other_app ∷ []

signin_outcome_example :
    Accepted ext alice subscribe_message
      (state_of [])
      (Signin.handle ext alice subscribe_message (state_of []))
    ⊎ Rejected ext alice subscribe_message
        (state_of [])
        (Signin.handle ext alice subscribe_message (state_of []))
signin_outcome_example = signin_outcome ext alice subscribe_message (state_of [])

abbrev params : Assoc Str
params = (bytes "auth_key", bytes "k") ∷ (bytes "auth_signature", bytes "sig") ∷ []

abbrev manager : StaticAppManager
manager = Manager.new apps

terminate_outcome_example :
    (IsSigned ext manager (bytes "other") (bytes "bob") params
      × (terminate ext manager (bytes "other") (bytes "bob") params (state_of [])
          ≡ (ok, terminated ext manager (bytes "other") (bytes "bob") params (state_of []))))
    ⊎ ((reason : Str) × ((terminate ext manager (bytes "other") (bytes "bob") params (state_of [])
            ≡ (failed 401 reason, state_of []))
          ⊎ (terminate ext manager (bytes "other") (bytes "bob") params (state_of [])
              ≡ (failed 404 reason, state_of []))))
terminate_outcome_example =
    terminate_outcome ext manager (bytes "other") (bytes "bob") params (state_of [])
