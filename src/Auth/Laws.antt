-- ===== src/Auth/Laws.antt =====
-- What every authenticator of go/auth.go guarantees of its result.
use go_stream.Prelude.{
  false, Option, none, some, Text, text_eq, is_empty, ◌≡◌, ◌≢◌, ◌⊎◌, inl, inr, refl, arith,
  if◌then◌else◌, if_cases,
}
use go_stream.Prelude.GoMap.{lookup}
use go_stream.Peer.{Claims}
use go_stream.Auth.{
  or_empty, Request, AuthResult, ApiKeyAuthenticator, normalize_auth_result, key_result,
  authenticate_api_key, authenticate_func, authenticate_bearer_token, authenticate_query_token,
  authenticate_conn, bearer_token_from_request,
}

-- An invalid result, or one whose map of claims is not nil.
abbrev pub IsSettled : AuthResult → Type 0
IsSettled result = (result.valid ≡ false) ⊎ (result.claims ≢ none)

or_empty_some : (claims : Claims) → or_empty claims ≢ none
or_empty_some none e = absurd (ground arith)
or_empty_some (some c) e = absurd (ground arith)

normalize-IsSettled : (result : AuthResult) → IsSettled (normalize_auth_result result)
unfolding normalize_auth_result
normalize-IsSettled result =
    if_cases IsSettled result.valid (λ e. inr (or_empty_some result.claims)) (λ e. inl e)

key_result-IsSettled : (found : Option Text) → IsSettled (key_result found)
unfolding key_result
key_result-IsSettled none = inl refl
key_result-IsSettled (some user) = normalize-IsSettled _

-- `if !result.Valid { return result }`.
past : (found r : AuthResult) → IsSettled r → IsSettled (if found.valid then r else found)
past found r h = if_cases IsSettled found.valid (λ e. h) (λ e. inl e)

authenticate_func-IsSettled :
    (f : Option (Request → AuthResult)) (r : Option Request) → IsSettled (authenticate_func f r)
unfolding authenticate_func
authenticate_func-IsSettled none r = inl refl
authenticate_func-IsSettled (some f) none = inl refl
authenticate_func-IsSettled (some f) (some r) = normalize-IsSettled (f r)

authenticate_api_key-IsSettled :
    (k : Option ApiKeyAuthenticator) (r : Option Request) → IsSettled (authenticate_api_key k r)
unfolding authenticate_api_key
authenticate_api_key-IsSettled none r = inl refl
authenticate_api_key-IsSettled (some k) none = inl refl
authenticate_api_key-IsSettled (some k) (some r) =
    past (bearer_token_from_request r).1 _
      (key_result-IsSettled (lookup (bearer_token_from_request r).0 k.keys))

authenticate_bearer_token-IsSettled :
    (v : Option (Text → AuthResult)) (r : Option Request)
    → IsSettled (authenticate_bearer_token v r)
unfolding authenticate_bearer_token
authenticate_bearer_token-IsSettled none r = inl refl
authenticate_bearer_token-IsSettled (some v) none = inl refl
authenticate_bearer_token-IsSettled (some v) (some r) =
    past (bearer_token_from_request r).1 _ (normalize-IsSettled (v (bearer_token_from_request r).0))

authenticate_query_token-IsSettled :
    (v : Option (Text → AuthResult)) (r : Option Request) → IsSettled (authenticate_query_token v r)
unfolding authenticate_query_token
authenticate_query_token-IsSettled none r = inl refl
authenticate_query_token-IsSettled (some v) none = inl refl
authenticate_query_token-IsSettled (some v) (some r) =
    if_cases IsSettled (is_empty r.query_token) (λ e. inl refl) (λ e. normalize-IsSettled _)

authenticate_conn-IsSettled :
    (v : Option (Text → AuthResult)) (h : Text) → IsSettled (authenticate_conn v h)
unfolding authenticate_conn
authenticate_conn-IsSettled none h = inl refl
authenticate_conn-IsSettled (some v) h = normalize-IsSettled _

-- Whatever function or key table it is given, an authenticator never accepts with a nil map of claims.
pub authenticate-IsSettled :
    (func : Option (Request → AuthResult)) (keys : Option ApiKeyAuthenticator)
    (validate : Option (Text → AuthResult)) (request : Option Request) (handshake : Text)
    → IsSettled (authenticate_func func request)
      × IsSettled (authenticate_api_key keys request)
      × IsSettled (authenticate_bearer_token validate request)
      × IsSettled (authenticate_query_token validate request)
      × IsSettled (authenticate_conn validate handshake)
authenticate-IsSettled func keys validate request handshake = (
  authenticate_func-IsSettled func request,
  authenticate_api_key-IsSettled keys request,
  authenticate_bearer_token-IsSettled validate request,
  authenticate_query_token-IsSettled validate request,
  authenticate_conn-IsSettled validate handshake,
)
