-- ===== src/Common.antt =====
-- internal/common: the definitions that every other package shares.
pub mod Base
pub mod Api
pub mod Monitoring
