-- ===== src/Auth/Keys.antt =====
-- Which requests `bearerTokenFromRequest` and `APIKeyAuthenticator.Authenticate` of go/auth.go accept.
use go_stream.Prelude.{
  true_ne_false, true, false, [], ◌∷◌, ◌++◌, Option, none, some, Text, text_eq, is_empty, drop,
  take, text_beq_iff, ◌≡◌, ◌≢◌, ◌↔◌, ◌⊎◌, inl, inr, refl, sym, ap, ◌∙◌, arith, if◌then◌else◌,
  if_cases, subst, take-append-drop, text_beq,
}
use go_stream.Prelude.GoMap.{lookup}
use go_stream.Auth.{
  Request, AuthResult, bearer, bearer_token_from_header, bearer_token_from_request, key_result,
  ApiKeyAuthenticator, authenticate_api_key, normalize_auth_result, has_prefix,
}

-- The result that accepts a bearer token, and the one that accepts a user's key.
abbrev accepted : AuthResult
accepted = record { valid = true; user_id = []; claims = none; error = none }

abbrev pub user_result : Text → AuthResult
user_result user = record { valid = true; user_id = user; claims = some []; error = none }

-- The token is what follows "Bearer ", and is not empty; anything else is invalid.
abbrev Carries : Text → Text × AuthResult → Type 0
Carries header found =
    ((found.1 ≡ accepted) × (header ≡ bearer ++ found.0) × (found.0 ≢ []))
    ⊎ ((found.1).valid ≡ false)

is_empty-cons : (s : Text) → is_empty s ≡ false → s ≢ []
is_empty-cons [] h e = absurd (ground arith)
is_empty-cons (c ∷ s) h e = cc

bearer_token-Carries :
    (request : Request) → Carries request.authorization (bearer_token_from_request request)
unfolding bearer_token_from_request bearer_token_from_header
bearer_token-Carries request =
    if_cases (Carries request.authorization) (is_empty request.authorization) (λ e. inr refl)
      (λ e.
        if_cases (Carries request.authorization) (has_prefix request.authorization bearer)
          (λ p.
            if_cases (Carries request.authorization) (is_empty (drop 7 request.authorization))
              (λ q. inr refl)
              (λ q. inl (
                refl,
                sym (take-append-drop 7 request.authorization)
                    ∙ ap (λ s. s ++ drop 7 request.authorization)
                        ((text_beq_iff (take 7 request.authorization) bearer).0 p),
                is_empty-cons _ q,
              )))
          (λ p. inr refl))

bearer_token_of :
    (token : Text) (request : Request)
    → token ≢ []
    → request.authorization ≡ bearer ++ token
    → bearer_token_from_request request ≡ (token, accepted)
unfolding bearer_token_from_request bearer_token_from_header text_beq
bearer_token_of [] request h e = absurd (h refl)
bearer_token_of (c ∷ token) request h e = rw e refl

-- The request bears a key that is not empty and that the table maps to the user.
abbrev pub BearsKeyOf : ApiKeyAuthenticator → Request → Text → Type 0
BearsKeyOf authenticator request user =
    (token : Text) × (token ≢ [])
    × (request.authorization ≡ bearer ++ token)
    × (lookup token authenticator.keys ≡ some user)

key_of :
    (found : Option Text) → (key_result found).valid ≡ true → (user : Text) × (found ≡ some user)
unfolding key_result normalize_auth_result
key_of none h = absurd (true_ne_false (sym h))
key_of (some user) h = (user, refl)

token_of :
    (authenticator : ApiKeyAuthenticator) (request : Request) (found : Text × AuthResult)
    → Carries request.authorization found
    → (if (found.1).valid then key_result (lookup found.0 authenticator.keys) else found.1).valid
      ≡ true
    → (user : Text) × BearsKeyOf authenticator request user
token_of authenticator request (token, result) (inl (r, e, n)) h =
    let (user, l) = key_of (lookup token authenticator.keys) (
      subst
        (λ (r : AuthResult).
          (if r.valid then key_result (lookup token authenticator.keys) else r).valid ≡ true)
        r h) in
    (user, (token, n, e, l))
token_of authenticator request (token, result) (inr r) h = absurd (
    true_ne_false (
      sym (
        subst
          (λ b. (if b then key_result (lookup token authenticator.keys) else result).valid ≡ true) r
          h)
      ∙ r))

bears_key-result :
    (authenticator : ApiKeyAuthenticator) (request : Request) (user : Text)
    → BearsKeyOf authenticator request user
    → authenticate_api_key (some authenticator) (some request) ≡ user_result user
unfolding authenticate_api_key key_result normalize_auth_result
bears_key-result authenticator request user (token, n, e, l) =
    rw (bearer_token_of token request n e, l) refl

result-BearsKeyOf :
    (authenticator : ApiKeyAuthenticator) (request : Request) (user : Text)
    → authenticate_api_key (some authenticator) (some request) ≡ user_result user
    → ((name : Text) × BearsKeyOf authenticator request name)
    → BearsKeyOf authenticator request user
result-BearsKeyOf authenticator request user h (name, b) =
    subst (BearsKeyOf authenticator request)
      (ap (λ (r : AuthResult). r.user_id) (sym (bears_key-result authenticator request name b) ∙ h))
      b

-- The result of an API key authenticator is valid exactly when the `Authorization` header is "Bearer ",
-- then a key that is not empty and that the table maps to some user; and it is the result that names
-- `user`, with an empty map of claims and no error, exactly when the table maps that key to `user`.
pub authenticate_api_key_iff :
    (authenticator : ApiKeyAuthenticator) (request : Request) (user : Text)
    → (((authenticate_api_key (some authenticator) (some request)).valid ≡ true)
        ↔ ((name : Text) × BearsKeyOf authenticator request name))
      × ((authenticate_api_key (some authenticator) (some request) ≡ user_result user)
          ↔ BearsKeyOf authenticator request user)
authenticate_api_key_iff authenticator request user = (
  (
    λ h. bears h,
    λ (name, b). ap (λ (r : AuthResult). r.valid) (bears_key-result authenticator request name b),
  ),
  (
    λ h.
        result-BearsKeyOf authenticator request user h (bears (ap (λ (r : AuthResult). r.valid) h)),
    λ b. bears_key-result authenticator request user b,
  ),
)
  where
    bears :
        (authenticate_api_key (some authenticator) (some request)).valid ≡ true
        → (name : Text) × BearsKeyOf authenticator request name
    bears h =
        token_of authenticator request (bearer_token_from_request request)
          (bearer_token-Carries request) (unfold authenticate_api_key in h)
