-- ===== src/Errors.antt =====
-- go/errors.go and the errors made in place with `core.E`: one constructor for each message that the
-- modelled code returns. `core.Result` is `Result`: `ok` with its value, or `err` with the error.
pub data Error : Type 0 where
  missing_auth_header malformed_auth_header invalid_api_key handshake_timeout auth_rejected : Error
  hub_not_running empty_channel nil_peer nil_handler : Error
  frame_too_large invalid_frame conn_error deadline_error : Error
  invalid_role invalid_mode not_started : Error
  not_connected short_write context_canceled context_deadline : Error
  service_not_initialised channel_required frame_required frame_not_bytes : Error
  not_publishing no_endpoint not_mounted nil_hub empty_address ping_failed : Error

pub data Result {ℓ} (A : Type ℓ) : Type ℓ where
  ok : A → Result A
  err : Error → Result A
