-- ===== src/Rpc.antt =====
-- The parts of internal/rpc and internal/common that read and write numbers and error texts.
pub mod Number
pub mod Errors
pub mod Retry
pub mod Client
