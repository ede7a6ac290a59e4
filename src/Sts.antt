-- ===== src/Sts.antt =====
-- internal/sts: the security token service.
pub mod Replay
pub mod Request
pub mod Exchange
pub mod Service
pub mod Reload
pub mod Http
