-- ===== src/Token/Errors.antt =====
-- The error values of internal/token.
pub data TokenError : Type 0 where
  audience_mismatch expired not_yet_valid missing_subject missing_issuer : TokenError
  issuer_mismatch multi_audience missing_txn : TokenError
  invalid_token alg_none alg_confusion unknown_key bad_signature unsupported_alg : TokenError
  unsupported_curve thumbprint_failed invalid_key missing_private_key : TokenError
