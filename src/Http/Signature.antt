-- ===== src/Http/Signature.antt =====
-- `verify_http_signature` of src/http/auth.rs. The query parameters are a list in the order of their
-- keys, as a BTreeMap goes through them.
use rushsocket.Base.{
  Str, bytes, str_eq, str_eq_iff, Bool, true, ◌||◌, ◌++◌, if◌then◌else◌, List, [], ◌∷◌, ◌≡◌, ◌↔◌,
  arith,
}
use rushsocket.Base.Assoc.{Assoc}
use rushsocket.Auth.{sign, sign_http_request}

-- `filter` and `map` of `verify_http_signature`.
unfoldable pub signed_params : Assoc Str → List Str
signed_params [] = []
signed_params ((k, v) ∷ rest) =
    let others = signed_params rest in
    if str_eq k (bytes "auth_signature") then others else (k ++ (bytes "=" ++ v)) ∷ others

-- `join("&")`
unfoldable pub join_params : List Str → Str
join_params [] = []
join_params (x ∷ []) = x
join_params (x ∷ y ∷ rest) = x ++ (bytes "&" ++ join_params (y ∷ rest))

module _ (hex_hmac : Str → Str → Str) where
  unfoldable pub verify_http_signature : Str → Str → Str → Assoc Str → Str → Bool
  verify_http_signature secret method path query_params auth_signature =
      let query_string = join_params (signed_params query_params) in
      let expected = sign_http_request hex_hmac secret method path query_string in
      str_eq
        (sign hex_hmac secret (method ++ (bytes "\n" ++ (path ++ (bytes "\n" ++ query_string)))))
        auth_signature
      || str_eq expected auth_signature

  -- A request's signature is accepted exactly if it is the hex MAC, under the app's secret, of the
  -- method, the path and the query string without the signature itself.
  pub verify_http_signature_iff :
      (secret method path : Str) (query_params : Assoc Str) (auth_signature : Str)
      → (verify_http_signature secret method path query_params auth_signature ≡ true) ↔ (
          auth_signature
          ≡ hex_hmac secret (
              method
              ++ (bytes "\n"
                  ++ (path ++ (bytes "\n" ++ join_params (signed_params query_params))))))
  unfolding verify_http_signature sign sign_http_request
  verify_http_signature_iff secret method path query_params auth_signature = ground (
    arith,
    str_eq_iff
        (hex_hmac secret (
          method
          ++ (bytes "\n" ++ (path ++ (bytes "\n" ++ join_params (signed_params query_params))))))
        auth_signature,
  )
