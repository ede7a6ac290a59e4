-- ===== src/Examples.antt =====
-- Tests of the model on concrete data, and each theorem at a concrete instance.
pub mod Tokens
pub mod Scopes
pub mod Registries
pub mod Codecs
pub mod Replays
pub mod Exchanges
pub mod Events
pub mod Logs
pub mod Reloads
pub mod Gateways
pub mod Endpoints
pub mod Traces
pub mod Sessions
pub mod Trips
