-- ===== src/Http/Reads.antt =====
-- The routes of src/http/routes that only read: channel.rs, channel_users.rs, channels.rs,
-- connections.rs and health.rs.
use rushsocket.Base.{
  Str, bytes, starts_with, Bool, true, false, not, ◌&&◌, ◌++◌, ℕ, Option, none, some, List, [], ◌∷◌,
  map, if◌then◌else◌,
}
use rushsocket.Base.Assoc
use rushsocket.Base.Assoc.{Assoc}
use rushsocket.Base.Sets
use rushsocket.Base.Trim.{split_commas, trim}
use rushsocket.Externals.{Externals}
use rushsocket.App.{App}
use rushsocket.App.Manager.{StaticAppManager}
use rushsocket.Protocol.Channels.{from_name, is_presence}
use rushsocket.RateLimit.{check_read_request}
use rushsocket.Http.Requests.{
  Counts, Reply, channel_counts, channel_info, users, connections, refused, when_signed,
  when_admitted,
}
use rushsocket.Http.Trigger.{counts}
use rushsocket.Adapter.Local
use rushsocket.State.{AppState, is_ready, is_closing}

module _ (ext : Externals) (manager : StaticAppManager) (app_id : Str) (params : Assoc Str) where
  -- What is checked before an answer.
  unfoldable pub when_readable :
      Str → (AppState → Option (Reply × AppState)) → AppState → Option (Reply × AppState)
  when_readable path next st =
      when_signed ext manager app_id params (bytes "GET") path
        (λ (app : App) (st1 : AppState).
          when_admitted
            (check_read_request ext st1.rate_limiter app_id app.max_read_req_per_sec st1.now) next
            st1)
        st

  unfoldable pub get_channel : Str → AppState → Option (Reply × AppState)
  get_channel channel_name st =
      when_readable (bytes "/apps/" ++ (app_id ++ (bytes "/channels/" ++ channel_name)))
        (λ (st1 : AppState). some (
          record {
            status = 200;
            body = channel_info (Local.get_channel_info app_id channel_name st1.adapter);
          },
          st1,
        ))
        st

  unfoldable pub get_users : Str → AppState → Option (Reply × AppState)
  get_users channel_name st =
      when_readable
        (bytes "/apps/" ++ (app_id ++ (bytes "/channels/" ++ (channel_name ++ bytes "/users"))))
        (λ (st1 : AppState).
          if not (is_presence (from_name channel_name))
          then refused 400 (bytes "Not a presence channel") st1
          else some (
            record {
              status = 200;
              body =
                  users (Assoc.keys (Local.get_presence_members app_id channel_name st1.adapter));
            },
            st1,
          ))
        st

  -- `info_attrs` of `list_channels`
  unfoldable pub info_attrs : List Str
  info_attrs = elim (Assoc.lookup (bytes "info") params) [
    | none ↦ []
    | some s ↦ map trim (split_commas s)
  ]

  unfoldable pub has_prefix : Option Str → Str → Bool
  has_prefix none channel = true
  has_prefix (some prefix) channel = starts_with channel prefix

  -- The loop of `list_channels`.
  unfoldable pub list_each : Bool → Bool → Option Str → List Str → AppState → Assoc Counts
  list_each subs user prefix [] st = []
  list_each subs user prefix (channel ∷ channels) st =
      let rest = list_each subs user prefix channels st in
      if has_prefix prefix channel
      then (channel, counts ext subs user app_id channel st) ∷ rest
      else rest

  unfoldable pub is_presence_prefix : Option Str → Bool
  is_presence_prefix none = false
  is_presence_prefix (some prefix) = starts_with prefix (bytes "presence-")

  unfoldable pub list_channels : AppState → Option (Reply × AppState)
  list_channels st =
      when_readable (bytes "/apps/" ++ (app_id ++ bytes "/channels"))
        (λ (st1 : AppState).
          let prefix = Assoc.lookup (bytes "filter_by_prefix") params in
          let wants_users = Sets.contains (bytes "user_count") info_attrs in
          let wants_subs = Sets.contains (bytes "subscription_count") info_attrs in
          if wants_users && not (is_presence_prefix prefix)
          then refused 400
              (bytes
                "user_count is only available for presence channels (use filter_by_prefix=presence-)")
              st1
          else some (
            record {
              status = 200;
              body = channel_counts (
                  list_each wants_subs wants_users prefix (Local.get_channels app_id st1.adapter)
                    st1);
            },
            st1,
          ))
        st

  unfoldable pub get_connections : AppState → Option (Reply × AppState)
  get_connections st =
      when_readable (bytes "/apps/" ++ (app_id ++ bytes "/connections"))
        (λ (st1 : AppState). some (
          record {
            status = 200;
            body = connections (Local.get_connection_count app_id st1.adapter);
          },
          st1,
        ))
        st

-- The status and the text of the probes.
unfoldable pub index : ℕ × Str
index = (200, bytes "OK")

unfoldable pub ready : AppState → ℕ × Str
ready st = if is_ready st then (200, bytes "OK") else (503, bytes "Not ready")

unfoldable pub accept_traffic : AppState → ℕ × Str
accept_traffic st = if is_closing st then (503, bytes "Server is closing") else (200, bytes "OK")
