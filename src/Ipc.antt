-- ===== src/Ipc.antt =====
-- internal/ipc
pub mod Frame
pub mod Client
pub mod Server
pub mod Pipeline
