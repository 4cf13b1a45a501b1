-- ===== src/Http/Outcomes.antt =====
-- What a request comes to when the checks of the routes (src/http/routes) let it pass, and when not.
use mathlib.Core.Option.{some-injective}
use rushsocket.Base.{
  Str, bytes, str_eq, Bool, true, false, ◌≡◌, ◌≢◌, ◌⊎◌, inl, inr, ℕ, Option, none, some, refl, sym,
  ◌∙◌, arith, Bool-cases, Option-cases,
}
use rushsocket.Base.Assoc
use rushsocket.Base.Assoc.{Assoc}
use rushsocket.Externals.{Externals}
use rushsocket.App.{App}
use rushsocket.App.Manager.{StaticAppManager, find_by_id}
use rushsocket.Http.Signature.{verify_http_signature}
use rushsocket.Http.Requests.{Reply, refused, when_signed, when_intact, when_admitted}
use rushsocket.RateLimit.{LocalRateLimiter}
use rushsocket.State.{AppState}

-- Nothing has changed but what the rate limiter counts.
abbrev pub IsCounted : AppState → AppState → Type 0
IsCounted st st' = st' ≡ record st { rate_limiter = st'.rate_limiter }

-- The reply is an error, and nothing has changed but what the rate limiter counts.
abbrev pub Rejected : AppState → Reply × AppState → Type 0
Rejected st r = (r.0.status ≢ 200) × IsCounted st r.1

none-some {ℓ} : {A : Type ℓ} (a : A) → none ≡ some a → ⊥
none-some a h = ground arith

pub refused-Rejected :
    (status : ℕ) (reason : Str) (first st : AppState) (r : Reply × AppState)
    → status ≢ 200
    → IsCounted first st
    → refused status reason st ≡ some r
    → Rejected first r
refused-Rejected status reason first st r ne c h = rw (← some-injective _ r h) (ne, c)

module _ (ext : Externals) (manager : StaticAppManager) (app_id : Str) (params : Assoc Str) where
  -- The app is found, and the request has the signature, under its secret, of this method and path.
  abbrev pub Signed : Str → Str → App → Type 0
  Signed method path app =
      (find_by_id app_id manager ≡ some app)
      × ((auth_signature : Str) × (Assoc.lookup (bytes "auth_signature") params
            ≡ some auth_signature)
          × (verify_http_signature ext.hex_hmac app.secret method path params auth_signature
              ≡ true))

  pub when_signed-cases :
      (method path : Str) (next : App → AppState → Option (Reply × AppState)) (st : AppState)
      (r : Reply × AppState)
      → when_signed ext manager app_id params method path next st ≡ some r
      → Rejected st r ⊎ ((app : App) × Signed method path app × (next app st ≡ some r))
  unfolding when_signed
  when_signed-cases method path next st r h = elim (Option-cases (find_by_id app_id manager)) [
    | inl e ↦ inl (refused-Rejected 404 _ st st r (ground arith) refl (rw (e, when_signed) at h))
    | inr (app, e) ↦ elim (Option-cases (Assoc.lookup (bytes "auth_signature") params)) [
      | inl f ↦
          inl (refused-Rejected 401 _ st st r (ground arith) refl (rw (e, f, when_signed) at h))
      | inr (sig, f) ↦
          elim (Bool-cases (verify_http_signature ext.hex_hmac app.secret method path params sig)) [
            | inr g ↦ inl (
                refused-Rejected 401 _ st st r (ground arith) refl (rw (e, f, g, when_signed) at h))
            | inl g ↦ inr (app, (e, (sig, f, g)), (rw (e, f, g, when_signed) at h))
          ]
    ]
  ]

  -- The request gives no sum of the body, or the right one.
  abbrev pub Intact : (Str → Str) → Str → Type 0
  Intact body_md5 body =
      (expected : Str)
      → Assoc.lookup (bytes "body_md5") params ≡ some expected
      → str_eq (body_md5 body) expected ≡ true

  pub when_intact-cases :
      (body_md5 : Str → Str) (body : Str) (next : AppState → Option (Reply × AppState))
      (st : AppState) (r : Reply × AppState)
      → when_intact ext manager app_id params body_md5 body next st ≡ some r
      → Rejected st r ⊎ (Intact body_md5 body × (next st ≡ some r))
  unfolding when_intact
  when_intact-cases body_md5 body next st r h =
      elim (Option-cases (Assoc.lookup (bytes "body_md5") params)) [
        | inl e ↦
            inr
              ((λ expected k. absurd (none-some expected (sym e ∙ k))), (rw (e, when_intact) at h))
        | inr (sum, e) ↦ elim (Bool-cases (str_eq (body_md5 body) sum)) [
          | inl f ↦ inr (
            (λ expected k. rw (← some-injective sum expected (sym e ∙ k)) f),
            (rw (e, f, when_intact) at h),
          )
          | inr f ↦
              inl (refused-Rejected 400 _ st st r (ground arith) refl (rw (e, f, when_intact) at h))
        ]
      ]

pub when_admitted-cases :
    (answer : Option (Bool × LocalRateLimiter)) (next : AppState → Option (Reply × AppState))
    (st : AppState) (r : Reply × AppState)
    → when_admitted answer next st ≡ some r
    → Rejected st r
      ⊎ ((limiter : LocalRateLimiter) × (answer ≡ some (true, limiter))
          × (next (record st { rate_limiter = limiter }) ≡ some r))
unfolding when_admitted
when_admitted-cases none next st r h = absurd (none-some r h)
when_admitted-cases (some (true, l)) next st r h = inr (l, refl, h)
when_admitted-cases (some (false, l)) next st r h =
    inl (refused-Rejected 429 _ st (record st { rate_limiter = l }) r (ground arith) refl h)
