-- ===== src/Token.antt =====
-- internal/token: the claims of a token, its scopes and its actor chain.
pub mod Errors
pub mod Claims
pub mod Lifetime
pub mod Chain
pub mod Scope
pub mod Keys
pub mod Thumbprint
pub mod Jws
pub mod Keyring
