-- ===== src/Auth.antt =====
-- go/auth.go: the authenticators of HTTP requests and of raw connections. A request is what they read of
-- it: its `Authorization` header, and the `token` of its query, each empty when it is absent. A nil
-- pointer or a nil function is `none`; a function value that the program is given is a parameter.
pub mod Keys
pub mod Laws
pub mod Tests
use go_stream.Prelude.{
  Bool, true, false, List, [], ◌∷◌, ◌++◌, Option, none, some, Text, text_eq, codes, is_empty, drop,
  if◌then◌else◌, text_beq, take, length,
}
use go_stream.Prelude.GoMap.{Map, lookup}
use go_stream.Errors.{Error}
use go_stream.Peer.{Claims}

pub record Request : Type 0 where
  pub authorization : Text
  pub query_token : Text

pub record AuthResult : Type 0 where
  pub valid : Bool
  pub user_id : Text
  pub claims : Claims
  pub error : Option Error

-- `AuthResult{Valid: false}`, with the `Error` field given.
abbrev invalid : Option Error → AuthResult
invalid e = record { valid = false; user_id = []; claims = none; error = e }

-- `if result.Claims == nil { result.Claims = map[string]any{} }`.
abbrev pub or_empty : Claims → Claims
or_empty none = some []
or_empty (some claims) = some claims

-- `normalizeAuthResult`.
pub normalize_auth_result : AuthResult → AuthResult
normalize_auth_result result =
    if result.valid then record result { claims = or_empty result.claims } else result

-- "Bearer ".
abbrev pub bearer : Text
bearer = codes "Bearer "

-- `core.HasPrefix`, as `strings.HasPrefix` compares: the head of the string, as long as the prefix.
abbrev pub has_prefix : Text → Text → Bool
has_prefix s prefix = text_beq (take (length prefix) s) prefix

-- `bearerTokenFromRequest`, past the test for an empty header.
pub bearer_token_from_header : Text → Text × AuthResult
bearer_token_from_header header =
    if has_prefix header bearer
    then (let token = drop (length bearer) header in
        if is_empty token
        then ([], invalid (some Error.malformed_auth_header))
        else (token, record { valid = true; user_id = []; claims = none; error = none }))
    else ([], invalid (some Error.malformed_auth_header))

-- `bearerTokenFromRequest`.
pub bearer_token_from_request : Request → Text × AuthResult
bearer_token_from_request request =
    if is_empty request.authorization
    then ([], invalid (some Error.missing_auth_header))
    else bearer_token_from_header request.authorization

-- `AuthenticatorFunc.Authenticate`.
pub authenticate_func : Option (Request → AuthResult) → Option Request → AuthResult
authenticate_func none request = invalid none
authenticate_func (some f) none = invalid none
authenticate_func (some f) (some request) = normalize_auth_result (f request)

pub record ApiKeyAuthenticator : Type 0 where
  pub keys : Map Text Text

-- `NewAPIKeyAuth`: the copy of the map has its entries; a nil map is the empty one.
abbrev new_api_key_auth : Option (Map Text Text) → ApiKeyAuthenticator
new_api_key_auth none = record { keys = [] }
new_api_key_auth (some keys) = record { keys = keys }

-- The answer for a key that `Keys` maps to a user, or does not.
pub key_result : Option Text → AuthResult
key_result none = invalid (some Error.invalid_api_key)
key_result (some user) =
    normalize_auth_result (record { valid = true; user_id = user; claims = none; error = none })

-- `APIKeyAuthenticator.Authenticate`.
pub authenticate_api_key : Option ApiKeyAuthenticator → Option Request → AuthResult
authenticate_api_key none request = invalid none
authenticate_api_key (some authenticator) none = invalid none
authenticate_api_key (some authenticator) (some request) =
    let found = bearer_token_from_request request in
    if (found.1).valid then key_result (lookup found.0 authenticator.keys) else found.1

-- `BearerTokenAuth.Authenticate`; the field `Validate` is the first argument.
pub authenticate_bearer_token : Option (Text → AuthResult) → Option Request → AuthResult
authenticate_bearer_token none request = invalid none
authenticate_bearer_token (some validate) none = invalid none
authenticate_bearer_token (some validate) (some request) =
    let found = bearer_token_from_request request in
    if (found.1).valid then normalize_auth_result (validate found.0) else found.1

-- `QueryTokenAuth.Authenticate`; the field `Validate` is the first argument.
pub authenticate_query_token : Option (Text → AuthResult) → Option Request → AuthResult
authenticate_query_token none request = invalid none
authenticate_query_token (some validate) none = invalid none
authenticate_query_token (some validate) (some request) =
    if is_empty request.query_token
    then invalid none
    else normalize_auth_result (validate request.query_token)

-- `ConnAuthenticatorFunc.AuthenticateConn`.
pub authenticate_conn : Option (Text → AuthResult) → Text → AuthResult
authenticate_conn none handshake = invalid none
authenticate_conn (some f) handshake = normalize_auth_result (f handshake)
