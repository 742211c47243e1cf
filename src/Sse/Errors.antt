-- ===== src/Sse/Errors.antt =====
-- internal/sse/errors.go and the errors that reach the package from its streams and requests.
pub data Error : Type 0 where
  eof already_closed source_closed : Error
  stream_failed request_failed bad_response : Error

pub data Result {ℓ} (A : Type ℓ) : Type ℓ where
  ok : A → Result A
  err : Error → Result A
