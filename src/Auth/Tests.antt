-- ===== src/Auth/Tests.antt =====
-- The authenticators on concrete requests.
use go_stream.Prelude.{◌≡◌, ◌↔◌, ◌∷◌, [], some, none, Text, codes, true, text_eq}
use go_stream.Auth.{Request, AuthResult, ApiKeyAuthenticator, authenticate_api_key}
use go_stream.Auth.Keys.{BearsKeyOf, user_result, authenticate_api_key_iff}

abbrev one_key : ApiKeyAuthenticator
one_key = record { keys = (codes "sk-live", codes "user-42") ∷ [] }

abbrev with_key : Request
with_key = record { authorization = codes "Bearer sk-live"; query_token = codes "sk-live" }

authenticate_api_key_iff_example :
    (((authenticate_api_key (some one_key) (some with_key)).valid ≡ true)
      ↔ ((name : Text) × BearsKeyOf one_key with_key name))
    × ((authenticate_api_key (some one_key) (some with_key) ≡ user_result (codes "user-42"))
        ↔ BearsKeyOf one_key with_key (codes "user-42"))
authenticate_api_key_iff_example = authenticate_api_key_iff one_key with_key (codes "user-42")

abbrev anyone : AuthResult
anyone = record { valid = true; user_id = codes "guest"; claims = none; error = none }
