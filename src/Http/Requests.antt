-- ===== src/Http/Requests.antt =====
-- What the routes of src/http/routes share: the parameters of the libraries they use, the replies, and
-- the checks that come first in each of them. `none` is a panic of the rate limiter.
use rushsocket.Base.{
  Str, bytes, str_eq, Bool, not, ◌⊎◌, ℕ, Option, none, some, List, any, if◌then◌else◌, ◌>>=◌,
}
use rushsocket.Base.Assoc
use rushsocket.Base.Assoc.{Assoc}
use rushsocket.Base.Trim.{split_commas, trim}
use rushsocket.Externals.{Externals}
use rushsocket.App.{App}
use rushsocket.App.Manager.{StaticAppManager, find_by_id}
use rushsocket.Http.Signature.{verify_http_signature}
use rushsocket.Adapter.Local.{ChannelInfo}
use rushsocket.RateLimit
use rushsocket.State.{AppState}

-- `TriggerRequest` of src/http/routes/events.rs
pub record TriggerRequest : Type 0 where
  pub name : Str
  pub payload : Str
  pub channels : Option (List Str)
  pub channel : Option Str
  pub socket_id : Option Str
  pub info : Option Str

-- `BatchEvent` of src/http/routes/batch_events.rs
pub record BatchEvent : Type 0 where
  pub name : Str
  pub payload : Str
  pub channel : Str
  pub socket_id : Option Str
  pub info : Option Str

-- The crate md5, and serde_json's reading of a body into a request or the text of its error.
pub record Bodies : Type 0 where
  pub body_md5 : Str → Str
  pub parse_trigger : Str → TriggerRequest ⊎ Str
  pub parse_batch : Str → List BatchEvent ⊎ Str

-- The counts that a reply gives of a channel.
pub record Counts : Type 0 where
  pub subscription_count : Option ℕ
  pub user_count : Option ℕ

-- The JSON objects of the replies, by what they hold.
pub data Body : Type 0 where
  failure : Str → Body
  empty : Body
  channel_counts : Assoc Counts → Body
  batch_counts : List Counts → Body
  channel_info : ChannelInfo → Body
  users : List Str → Body
  connections : ℕ → Body

pub record Reply : Type 0 where
  pub status : ℕ
  pub body : Body

abbrev pub refused : ℕ → Str → AppState → Option (Reply × AppState)
refused status reason st = some (record { status = status; body = failure reason }, st)

-- `split(',').any(|v| v.trim() == name)`
unfoldable pub wants : Str → Str → Bool
wants name info = any (λ v. str_eq (trim v) name) (split_commas info)

module _ (ext : Externals) (manager : StaticAppManager) (app_id : Str) (params : Assoc Str) where
  -- The app is known, and the request is signed with its secret.
  unfoldable pub when_signed :
      Str
      → Str
      → (App → AppState → Option (Reply × AppState))
      → AppState
      → Option (Reply × AppState)
  when_signed method path next st = elim (find_by_id app_id manager) [
    | none ↦ refused 404 (bytes "App not found") st
    | some app ↦ elim (Assoc.lookup (bytes "auth_signature") params) [
      | none ↦ refused 401 (bytes "Missing auth_signature") st
      | some auth_signature ↦
          if not (verify_http_signature ext.hex_hmac app.secret method path params auth_signature)
          then refused 401 (bytes "Invalid signature") st
          else next app st
    ]
  ]

  -- The MD5 sum of the body is the one that the request gives, if it gives one.
  unfoldable pub when_intact :
      (Str → Str)
      → Str
      → (AppState → Option (Reply × AppState))
      → AppState
      → Option (Reply × AppState)
  when_intact body_md5 body next st = elim (Assoc.lookup (bytes "body_md5") params) [
    | none ↦ next st
    | some expected_md5 ↦
        if not (str_eq (body_md5 body) expected_md5)
        then refused 400 (bytes "body_md5 mismatch") st
        else next st
  ]

-- The rate limiter's answer.
unfoldable pub when_admitted :
    Option (Bool × RateLimit.LocalRateLimiter)
    → (AppState → Option (Reply × AppState))
    → AppState
    → Option (Reply × AppState)
when_admitted answer next st = do
  a ← answer
  let st1 = record st { rate_limiter = a.1 }
  if not a.0 then refused 429 (bytes "Rate limit exceeded") st1 else next st1
