-- ===== src/Http/Terminate.antt =====
-- src/http/routes/terminate.rs
use rushsocket.Base.{
  ap, ◌∙◌, Str, bytes, Option, some, none, ℕ, not, ◌++◌, if◌then◌else◌, ◌≡◌, ◌⊎◌, inl, inr, refl,
  Option-cases, Bool-cases,
}
use rushsocket.Base.Assoc
use rushsocket.Base.Assoc.{Assoc}
use rushsocket.Externals.{Externals}
use rushsocket.App.{App}
use rushsocket.App.Manager.{StaticAppManager, find_by_id}
use rushsocket.Http.Signature.{
  verify_http_signature, verify_http_signature_iff, signed_params, join_params,
}
use rushsocket.Adapter.Local
use rushsocket.State.{AppState}

-- The status, and the text of `error` in the body if there is one.
pub record Response : Type 0 where
  pub status : ℕ
  pub error : Option Str

unfoldable pub terminate_path : Str → Str → Str
terminate_path app_id user_id =
    bytes "/apps/" ++ (app_id ++ (bytes "/users/" ++ (user_id ++ bytes "/terminate_connections")))

abbrev pub failed : ℕ → Str → Response
failed status reason = record { status = status; error = some reason }

abbrev pub ok : Response
ok = record { status = 200; error = none }

module _ (ext : Externals) (manager : StaticAppManager) (app_id user_id : Str)
    (params : Assoc Str) where
  -- `terminate_user_connections`
  abbrev pub terminated : AppState → AppState
  terminated st = record st {
    heap = Local.terminate_user_connections ext app_id user_id st.adapter st.heap;
  }

  unfoldable pub terminate : AppState → Response × AppState
  terminate st = elim (find_by_id app_id manager) [
    | none ↦ (failed 404 (bytes "App not found"), st)
    | some app ↦ elim (Assoc.lookup (bytes "auth_signature") params) [
      | none ↦ (failed 401 (bytes "Missing auth_signature"), st)
      | some auth_signature ↦
          if not (
            verify_http_signature ext.hex_hmac app.secret (bytes "POST")
              (terminate_path app_id user_id) params auth_signature)
          then (failed 401 (bytes "Invalid signature"), st)
          else (ok, terminated st)
    ]
  ]

  -- The app is there, and the request has the signature, under its secret, of its own parameters.
  abbrev pub IsSigned : Type 0
  IsSigned =
      (app : App) × (find_by_id app_id manager ≡ some app)
      × (Assoc.lookup (bytes "auth_signature") params
          ≡ some (
              ext.hex_hmac app.secret (
                bytes "POST"
                ++ (bytes "\n"
                    ++ (terminate_path app_id user_id
                        ++ (bytes "\n" ++ join_params (signed_params params)))))))

  -- The route closes the user's connections and answers 200, and then the app is known and the
  -- request signed with its secret, or it changes nothing and answers with an error, 401 or 404.
  pub terminate_outcome :
      (st : AppState)
      → (IsSigned × (terminate st ≡ (ok, terminated st)))
        ⊎ ((reason : Str) × ((terminate st ≡ (failed 401 reason, st))
              ⊎ (terminate st ≡ (failed 404 reason, st))))
  unfolding terminate
  terminate_outcome st = elim (Option-cases (find_by_id app_id manager)) [
    | inl e ↦ inr (bytes "App not found", inr (rw (e, terminate) refl))
    | inr (app, e) ↦ elim (Option-cases (Assoc.lookup (bytes "auth_signature") params)) [
      | inl f ↦ inr (bytes "Missing auth_signature", inl (rw (e, f, terminate) refl))
      | inr (sig, f) ↦
          elim (Bool-cases (
            verify_http_signature ext.hex_hmac app.secret (bytes "POST")
              (terminate_path app_id user_id) params sig)) [
                | inr g ↦ inr (bytes "Invalid signature", inl (rw (e, f, g, terminate) refl))
                | inl g ↦ inl (
                  (
                    app,
                    e,
                    f
                        ∙ ap some (
                            (verify_http_signature_iff ext.hex_hmac app.secret (bytes "POST")
                                (terminate_path app_id user_id) params sig).0
                              g),
                  ),
                  rw (e, f, g, terminate) refl,
                )
              ]
    ]
  ]
