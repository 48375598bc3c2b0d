-- ===== src/Errors.antt =====
-- The typed errors of backend/src/app/core/errors.py, each with its class attributes.
use normeon_german_technical.Prelude.{ℕ, Text, txt, Option, none, some}

pub data AppError : Type 0 where
  document_not_found not_authenticated invalid_credentials forbidden : AppError
  unsupported_file_type too_many_pages encrypted_document malformed_document : AppError
  suspicious_archive document_file_not_found chunk_not_found : AppError
  llm_timeout llm_unavailable llm_misconfigured embedding_misconfigured : AppError
  daily_limit_reached : ℕ → AppError

-- `code`
unfoldable pub code_of : AppError → Text
code_of document_not_found = txt "document_not_found"
code_of not_authenticated = txt "not_authenticated"
code_of invalid_credentials = txt "invalid_credentials"
code_of forbidden = txt "forbidden"
code_of unsupported_file_type = txt "unsupported_file_type"
code_of too_many_pages = txt "too_many_pages"
code_of encrypted_document = txt "encrypted_document"
code_of malformed_document = txt "malformed_document"
code_of suspicious_archive = txt "suspicious_archive"
code_of document_file_not_found = txt "document_file_not_found"
code_of chunk_not_found = txt "chunk_not_found"
code_of llm_timeout = txt "llm_timeout"
code_of llm_unavailable = txt "llm_unavailable"
code_of llm_misconfigured = txt "llm_misconfigured"
code_of embedding_misconfigured = txt "embedding_misconfigured"
code_of (daily_limit_reached _) = txt "daily_limit_reached"

-- `status_code`
unfoldable pub status_of : AppError → ℕ
status_of document_not_found = 404
status_of not_authenticated = 401
status_of invalid_credentials = 401
status_of forbidden = 403
status_of unsupported_file_type = 415
status_of too_many_pages = 413
status_of encrypted_document = 422
status_of malformed_document = 422
status_of suspicious_archive = 422
status_of document_file_not_found = 404
status_of chunk_not_found = 404
status_of llm_timeout = 504
status_of llm_unavailable = 502
status_of llm_misconfigured = 500
status_of embedding_misconfigured = 500
status_of (daily_limit_reached _) = 429

-- `retry_after_s`
unfoldable pub retry_after_s : AppError → Option ℕ
retry_after_s (daily_limit_reached seconds) = some seconds
retry_after_s _ = none
